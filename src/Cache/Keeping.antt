-- ===== src/Cache/Keeping.antt =====
-- What the image cache of src/image_cache.rs keeps, if the operations below it do.
use offload.Base.{
  String, Bool, Option, none, some, List, [], ◌∷◌, comparable_number, comparable_text, Result, ok,
  err, Failure, Keeps, bind-Ensures, pure-Keeps, lift-Keeps, if-Ensures, attempt-Keeps,
}
use offload.Git.Paths.{canonicalize_config_path}
use offload.Cache.{
  Repository, Config, cached_entry, read_cached_image_for_commit, cached_image_of,
  resolve_latest_commit, resolve_checkpoint, resolve_mode, latest_commit_at, checkpoint_at,
  resolve_inside, update_notes, resolve_base, note_key, write_note_for_commit, found,
}

-- The operations of git that write no notes.
pub record GitKeeps {W : Type 0} (r : Repository W) (I : W → Type 0) : Type 0 where
  pub head_sha : Keeps I r.head_sha
  pub repo_root : Keeps I r.repo_root
  pub nearest_ancestor_touching :
      (paths : List String) → Keeps I (r.nearest_ancestor_touching paths)
  pub read_note : (sha : String) → Keeps I (r.read_note sha)
  pub push_notes : (remote : String) → Keeps I (r.push_notes remote)
  pub fetch_notes : (remote : String) → Keeps I (r.fetch_notes remote)
  pub configure_notes_fetch : (remote : String) → Keeps I (r.configure_notes_fetch remote)
  pub generate_checkpoint_diff : (sha : String) → Keeps I (r.generate_checkpoint_diff sha)

module _ {W : Type 0} (r : Repository W) (I : W → Type 0) (g : GitKeeps r I) where
  cached_image_of-Keeps :
      (config_path sha : String) (no_cache : Bool)
      → Keeps I (cached_image_of r config_path sha no_cache)
  unfolding cached_image_of read_cached_image_for_commit
  cached_image_of-Keeps config_path sha no_cache = if-Ensures I no_cache (pure-Keeps I none) (
      bind-Ensures I g.repo_root λ root.
        bind-Ensures I (lift-Keeps I (canonicalize_config_path config_path root)) λ config_key.
          bind-Ensures I (g.read_note sha) λ note. pure-Keeps I (cached_entry r config_key note))

  latest_commit_at-Keeps :
      (config_path : String) (no_cache : Bool) (head : Result Failure String)
      → Keeps I (latest_commit_at r config_path no_cache head)
  unfolding latest_commit_at
  latest_commit_at-Keeps config_path no_cache (err _) = pure-Keeps I none
  latest_commit_at-Keeps config_path no_cache (ok sha) =
      bind-Ensures I (cached_image_of-Keeps config_path sha no_cache) λ cached. pure-Keeps I _

  checkpoint_at-Keeps :
      (config_path : String) (no_cache : Bool) (nearest : Option String)
      → Keeps I (checkpoint_at r config_path no_cache nearest)
  unfolding checkpoint_at
  checkpoint_at-Keeps config_path no_cache none = pure-Keeps I none
  checkpoint_at-Keeps config_path no_cache (some sha) =
      bind-Ensures I (cached_image_of-Keeps config_path sha no_cache) λ cached. pure-Keeps I _

  resolve_mode-Keeps :
      (config_path : String) (no_cache : Bool) (inputs : Option (List String))
      → Keeps I (resolve_mode r config_path no_cache inputs)
  unfolding resolve_mode resolve_latest_commit resolve_checkpoint
  resolve_mode-Keeps config_path no_cache (some inputs) =
      bind-Ensures I
        (bind-Ensures I (g.nearest_ancestor_touching inputs)
          (checkpoint_at-Keeps config_path no_cache))
        λ info. pure-Keeps I _
  resolve_mode-Keeps config_path no_cache none =
      bind-Ensures I
        (bind-Ensures I (attempt-Keeps I g.head_sha) (latest_commit_at-Keeps config_path no_cache))
        λ info. pure-Keeps I _

  update_notes-Keeps : (no_cache : Bool) → Keeps I (update_notes r no_cache)
  unfolding update_notes
  update_notes-Keeps no_cache = if-Ensures I no_cache (pure-Keeps I tt) (
      bind-Ensures I (attempt-Keeps I (g.fetch_notes "origin")) λ fetched.
        bind-Ensures I (attempt-Keeps I (g.configure_notes_fetch "origin"))
          λ configured. pure-Keeps I tt)

  resolve_inside-Keeps :
      (config_path : String) (config : Config) (no_cache : Bool) (root : Result Failure String)
      → Keeps I (resolve_inside r config_path config no_cache root)
  unfolding resolve_inside
  resolve_inside-Keeps config_path config no_cache (err _) = pure-Keeps I none
  resolve_inside-Keeps config_path config no_cache (ok _) =
      bind-Ensures I (update_notes-Keeps no_cache) λ _.
        bind-Ensures I (attempt-Keeps I (resolve_mode-Keeps config_path no_cache config.checkpoint))
          λ base. pure-Keeps I (found r base)

  pub resolve_base-Keeps :
      (config_path : String) (config : Config) (no_cache : Bool)
      → Keeps I (resolve_base r config_path config no_cache)
  unfolding resolve_base
  resolve_base-Keeps config_path config no_cache =
      bind-Ensures I (attempt-Keeps I g.repo_root)
        (resolve_inside-Keeps config_path config no_cache)

  -- A note that may be written at any key.
  pub write_note_for_commit-Keeps :
      (commit_sha image_id config_path : String)
      → ((key : String)
          → Keeps I (r.write_note commit_sha ((key, record { image_id = image_id }) ∷ [])))
      → Keeps I (write_note_for_commit r commit_sha image_id config_path)
  unfolding write_note_for_commit note_key
  write_note_for_commit-Keeps commit_sha image_id config_path h =
      bind-Ensures I
        (attempt-Keeps I (
          bind-Ensures I
            (bind-Ensures I g.repo_root
              λ root. lift-Keeps I (canonicalize_config_path config_path root))
            λ config_key. bind-Ensures I (h config_key) λ _. g.push_notes "origin"))
        λ done. pure-Keeps I tt
