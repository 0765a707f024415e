-- ===== src/Cache.antt =====
-- src/image_cache.rs: which commit an image is built for, and whether a cached image is there. Git is an
-- interface, which src/git.rs fills; the traces, the messages and the progress display are left out.
pub mod Prewarm
mod Traced
mod Keeping
mod Sound
mod Fallback
mod Backend
mod Samples
use offload.Base.{
  ℕ, zero, suc, ◌+◌, ◌-◌, ◌*◌, ◌/◌, ◌%◌, ◌≤◌, ◌<◌, min, max, String, ◌≡◌, refl, sym, ap, ◌∙◌, subst,
  ◌≢◌, ◌↔◌, ◌⊎◌, inl, inr, Bool, true, false, not, ◌&&◌, ◌||◌, Option, none, some, List, [], ◌∷◌,
  ◌++◌, map, foldl, flatten, append-nil, append_assoc, map-append, Perm, arith, ltb, leb,
  if◌then◌else◌, ltb→lt, lt→ltb, leb→le, le→leb, leb-false→lt, Bool-cases, Option-cases, is_some,
  unwrap_or, length, take, drop, replicate, set, keep, all, sum_of, All, length-append,
  take-append-drop, length-take, length-drop, length-replicate, length-set, length-map,
  length-keep-le, sum_of-append, All-append, All-replicate, All-imp, All-keep, All-keep_self,
  Comparable, ◌==◌, comparable_number, comparable_text, eq_self, eq→path, ne→eq-false, contains,
  add, Distinct, contains-add, Distinct-add, length-add-le, get, insert, get-insert,
  get-insert_self, insert_by, sort_by, sort_by-perm, IsSorted, All-insert_by, All-sort_by,
  sort_by-IsSorted, flat_map, flat_map-append, flat_map-replicate_nil, flat_map-keep,
  keep-append-perm, flat_map-sort_by-perm, sum_of-perm, length-perm, contains-sort_by,
  Distinct-sort_by, keys, contains-keys-insert, IsTable, insert-IsTable, get-not_key, Result, ok,
  err, Failure, failed, Action, pure, fail, and_then, ◌>>=◌, ◌>>◌, attempt, with_error, map_error,
  any,
}
use mathlib.Core.Option.{map as map_option}
use offload.Git.{ImageEntry, NoteContents, lift}
use offload.Git.Paths.{canonicalize_config_path}

-- What src/image_cache.rs calls of src/git.rs, for one repository.
pub record Repository (W : Type 0) : Type 0 where
  pub head_sha : Action W Failure String
  pub repo_root : Action W Failure String
  pub nearest_ancestor_touching : List String → Action W Failure (Option String)
  pub read_note : String → Action W Failure (Option NoteContents)
  pub write_note : String → NoteContents → Action W Failure (Unit {0})
  pub push_notes : String → Action W Failure (Unit {0})
  pub fetch_notes : String → Action W Failure (Unit {0})
  pub configure_notes_fetch : String → Action W Failure (Unit {0})
  pub export_tree : String → String → Action W Failure (Unit {0})
  pub generate_checkpoint_diff : String → Action W Failure (Option String)

pub record CachedImage : Type 0 where
  pub image_id : String

pub record CheckpointInfo : Type 0 where
  pub checkpoint_sha : String
  pub cached_image : Option CachedImage

pub record LatestCommitInfo : Type 0 where
  pub head_sha : String
  pub cached_image : Option CachedImage

pub data BaseKind : Type 0 where
  checkpoint latest_commit : BaseKind

pub record ResolvedBase : Type 0 where
  pub base_sha : String
  pub cached_image_id : Option String
  pub kind : BaseKind

-- The fields of the configuration that are used: the `build_inputs` of its checkpoint section, if that is
-- there, and two of its offload section.
pub record Config : Type 0 where
  pub checkpoint : Option (List String)
  pub sandbox_repo_root : Option String
  pub sandbox_init_cmd : Option String

module _ {W : Type 0} (r : Repository W) where
  -- The entry of the note, if its id is not empty.
  unfoldable pub cached_of : Option ImageEntry → Option CachedImage
  cached_of none = none
  cached_of (some entry) =
      if entry.image_id == "" then none else some (record { image_id = entry.image_id })

  unfoldable pub cached_entry : String → Option NoteContents → Option CachedImage
  unfolding cached_of
  cached_entry config_key none = none
  cached_entry config_key (some contents) = cached_of (get config_key contents)

  unfoldable pub read_cached_image_for_commit :
      String → String → Action W Failure (Option CachedImage)
  unfolding cached_entry
  read_cached_image_for_commit commit_sha config_key = do
    note ← r.read_note commit_sha
    pure (cached_entry config_key note)

  -- The value of `let cached_image` in both modes.
  unfoldable pub cached_image_of : String → String → Bool → Action W Failure (Option CachedImage)
  unfolding read_cached_image_for_commit canonicalize_config_path
  cached_image_of config_path sha no_cache = if no_cache then pure none else (do
    root ← r.repo_root
    config_key ← lift (canonicalize_config_path config_path root)
    read_cached_image_for_commit sha config_key)

  -- With the answer of git: an empty repository has no HEAD.
  unfoldable pub latest_commit_at :
      String → Bool → Result Failure String → Action W Failure (Option LatestCommitInfo)
  unfolding cached_image_of
  latest_commit_at config_path no_cache (err _) = pure none
  latest_commit_at config_path no_cache (ok sha) = do
    cached ← cached_image_of config_path sha no_cache
    pure (some (record { head_sha = sha; cached_image = cached }))

  unfoldable pub resolve_latest_commit : String → Bool → Action W Failure (Option LatestCommitInfo)
  unfolding latest_commit_at
  resolve_latest_commit config_path no_cache = do
    head ← attempt r.head_sha
    latest_commit_at config_path no_cache head

  -- With the nearest commit that touches a build input.
  unfoldable pub checkpoint_at :
      String → Bool → Option String → Action W Failure (Option CheckpointInfo)
  unfolding cached_image_of
  checkpoint_at config_path no_cache none = pure none
  checkpoint_at config_path no_cache (some sha) = do
    cached ← cached_image_of config_path sha no_cache
    pure (some (record { checkpoint_sha = sha; cached_image = cached }))

  unfoldable pub resolve_checkpoint :
      String → List String → Bool → Action W Failure (Option CheckpointInfo)
  unfolding checkpoint_at
  resolve_checkpoint config_path build_inputs no_cache = do
    nearest ← r.nearest_ancestor_touching build_inputs
    checkpoint_at config_path no_cache nearest

  abbrev base_of : String → Option CachedImage → BaseKind → ResolvedBase
  base_of sha cached kind = record {
    base_sha = sha;
    cached_image_id = map_option (λ c. c.image_id) cached;
    kind = kind;
  }

  -- One call for each mode, by the checkpoint section of the configuration.
  unfoldable pub resolve_mode :
      String → Bool → Option (List String) → Action W Failure (Option ResolvedBase)
  unfolding resolve_checkpoint resolve_latest_commit
  resolve_mode config_path no_cache (some build_inputs) = do
    info ← resolve_checkpoint config_path build_inputs no_cache
    pure (map_option (λ i. base_of i.checkpoint_sha i.cached_image checkpoint) info)
  resolve_mode config_path no_cache none = do
    info ← resolve_latest_commit config_path no_cache
    pure (map_option (λ i. base_of i.head_sha i.cached_image latest_commit) info)

  -- The notes are fetched as well as they can be.
  unfoldable pub update_notes : Bool → Action W Failure (Unit {0})
  update_notes no_cache = if no_cache then pure tt else (do
    fetched ← attempt {E' = Failure} (r.fetch_notes "origin")
    configured ← attempt {E' = Failure} (r.configure_notes_fetch "origin")
    pure tt)

  abbrev found : Result Failure (Option ResolvedBase) → Option ResolvedBase
  found (ok base) = base
  found (err _) = none

  -- Whether there is a repository at all.
  unfoldable pub resolve_inside :
      String → Config → Bool → Result Failure String → Action W Failure (Option ResolvedBase)
  unfolding update_notes resolve_mode
  resolve_inside config_path config no_cache (err _) = pure none
  resolve_inside config_path config no_cache (ok _) = do
    update_notes no_cache
    base ← attempt {E' = Failure} (resolve_mode config_path no_cache config.checkpoint)
    pure (found base)

  -- It never fails: every error is no base.
  unfoldable pub resolve_base : String → Config → Bool → Action W Failure (Option ResolvedBase)
  unfolding resolve_inside
  resolve_base config_path config no_cache = do
    root ← attempt {E' = Failure} r.repo_root
    resolve_inside config_path config no_cache root

  unfoldable pub note_key : String → Action W Failure String
  unfolding canonicalize_config_path
  note_key config_path = do root ← r.repo_root; lift (canonicalize_config_path config_path root)

  -- As well as it can be: no error gets out.
  unfoldable pub write_note_for_commit : String → String → String → Action W Failure (Unit {0})
  unfolding note_key
  write_note_for_commit commit_sha image_id config_path = do
    done ← attempt {E' = Failure} (do
      config_key ← note_key config_path
      let contents : NoteContents = (config_key, record { image_id = image_id }) ∷ []
      r.write_note commit_sha contents
      r.push_notes "origin")
    pure tt
