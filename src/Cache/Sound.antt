-- ===== src/Cache/Sound.antt =====
-- The notes that src/image_cache.rs writes: only for images that were built from an export of the commit.
use offload.Base.{
  String, ◌≡◌, refl, Bool, true, false, Option, none, some, List, [], ◌∷◌, if◌then◌else◌,
  comparable_number, comparable_text, eq_self, Result, ok, err, Failure, failed, Action, Ends,
  Ensures, Keeps, bind-Ensures, pure-Keeps, lift-Keeps, if-Ensures, Keeps-snd, attempt-Keeps,
  map_error-Ensures, weaken-Ensures,
}
use offload.Retry.{exec_failed}
use offload.Retry.Actions.{retry_action-Ensures}
use offload.Cache.{Repository, ResolvedBase, write_note_for_commit}
use offload.Cache.Keeping.{GitKeeps, resolve_base-Keeps, write_note_for_commit-Keeps}
use offload.Cache.Prewarm.{
  ImageBuilder, PrepareContext, Surroundings, rsync_args, PrewarmOutcome, resolved, cache_miss,
  read_dockerignore_patterns, snapshot_working_directory, require_image, patch_image, try_thin_diff,
  outcome_of, thin_diff_outcome, thin_diff_if_any, write_base_note, build_base, required,
  or_build_base, prewarm_from, run_prewarm_pipeline, finish_full, full_build_fallback, prepare_from,
  prepare_with_prewarm,
}
use offload.Cache.Traced.{
  Call, exported, built, wrote, last_export, IsBuilt, from_export, before, IsAccounted, Traced,
  unrecorded, recorded-Ensures, unrecorded-Keeps, succeeded, image_of, traced_repository,
  traced_builder, traced_surroundings,
}

-- A weaker property of what an action leaves.
forget-Ends :
    {W E A : Type 0} (I J : W → Type 0) (x : Result E A × W)
    → ((w : W) → J w → I w)
    → Ends J (λ _. J) x
    → Ends I (λ _. I) x
forget-Ends I J (ok a, w) f h = f w h
forget-Ends I J (err e, w) f h = f w h

unless-Ensures :
    {W E A : Type 0} (I P : W → Type 0) {m k : Action W E A} (b : Bool)
    → Ensures I P m (λ _. I)
    → (b ≡ false → Ensures I P k (λ _. I))
    → Ensures I P (if b then m else k) (λ _. I)
unless-Ensures I P true h f = h
unless-Ensures I P false h f = f refl

module _ {W : Type 0} (git : Repository W) (builder : ImageBuilder W) (around : Surroundings W)
    (ctx : PrepareContext) where
  abbrev r : Repository (Traced W)
  r = traced_repository git

  abbrev b : ImageBuilder (Traced W)
  b = traced_builder builder

  abbrev s : Surroundings (Traced W)
  s = traced_surroundings around

  abbrev Log : Type 0
  Log = List Call

  abbrev IsSound : Traced W → Type 0
  IsSound x = IsAccounted ctx.no_cache x.1

  abbrev HasExport : String → String → Log → Type 0
  HasExport dir sha log = IsAccounted ctx.no_cache log × (last_export dir log ≡ some sha)

  abbrev IsExported : String → String → Traced W → Type 0
  IsExported dir sha x = HasExport dir sha x.1

  abbrev HasImage : String → Option String → Log → Type 0
  HasImage sha none log = IsAccounted ctx.no_cache log
  HasImage sha (some id) log = IsAccounted ctx.no_cache log × IsBuilt sha id log

  git-Keeps : (I : Log → Type 0) → GitKeeps r (λ x. I x.1)
  git-Keeps I = record {
    head_sha = unrecorded-Keeps I git.head_sha;
    repo_root = unrecorded-Keeps I git.repo_root;
    nearest_ancestor_touching = λ paths. unrecorded-Keeps I (git.nearest_ancestor_touching paths);
    read_note = λ sha. unrecorded-Keeps I (git.read_note sha);
    push_notes = λ remote. unrecorded-Keeps I (git.push_notes remote);
    fetch_notes = λ remote. unrecorded-Keeps I (git.fetch_notes remote);
    configure_notes_fetch = λ remote. unrecorded-Keeps I (git.configure_notes_fetch remote);
    generate_checkpoint_diff = λ sha. unrecorded-Keeps I (git.generate_checkpoint_diff sha);
  }

  still : {E A : Type 0} (m : Action W E A) → Keeps IsSound (unrecorded m)
  still m = unrecorded-Keeps (IsAccounted ctx.no_cache) m

  export_tree-Ensures :
      (sha dir : String) → Ensures IsSound IsSound (r.export_tree sha dir) (λ _. IsExported dir sha)
  export_tree-Ensures sha dir =
      recorded-Ensures (IsAccounted ctx.no_cache) (IsAccounted ctx.no_cache)
        (λ _. HasExport dir sha) (λ x. exported sha dir (succeeded x) ∷ [])
        (git.export_tree sha dir) (λ a log i. (i, rw (eq_self dir) refl)) (λ e log i. i)

  built-HasImage :
      (sha dir : String) (image : Option String) (log : Log)
      → HasExport dir sha log
      → HasImage sha image (built (some dir) image ∷ log)
  built-HasImage sha dir none log h = h.0
  built-HasImage sha dir (some id) log h = (h.0, from_export dir log h.1)

  build_from_export-Ensures :
      (copy_dirs : List (String × String)) (init : Option String) (sha dir : String)
      → Ensures
          (IsExported dir sha)
          (IsExported dir sha)
          (b.build_full copy_dirs init false (some dir))
          (λ image x. HasImage sha image x.1)
  build_from_export-Ensures copy_dirs init sha dir =
      recorded-Ensures (HasExport dir sha) (HasExport dir sha) (HasImage sha)
        (λ x. built (some dir) (image_of x) ∷ [])
        (builder.build_full copy_dirs init false (some dir))
        (λ image log h. built-HasImage sha dir image log h) (λ e log h. h)

  build_full-Keeps :
      (copy_dirs : List (String × String)) (init dir : Option String) (waits : Bool)
      → Keeps IsSound (b.build_full copy_dirs init waits dir)
  build_full-Keeps copy_dirs init dir waits =
      recorded-Ensures (IsAccounted ctx.no_cache) (IsAccounted ctx.no_cache)
        (λ _. IsAccounted ctx.no_cache) (λ x. built dir (image_of x) ∷ [])
        (builder.build_full copy_dirs init waits dir) (λ a log i. i) (λ e log i. i)

  abbrev HasBase : String → String → Log → Type 0
  HasBase sha id log = IsAccounted ctx.no_cache log × IsBuilt sha id log

  write_note-Keeps :
      (sha key id : String)
      → ctx.no_cache ≡ false
      → Keeps (λ x. HasBase sha id x.1) (r.write_note sha ((key, record { image_id = id }) ∷ []))
  write_note-Keeps sha key id on =
      let contents = (key, record { image_id = id }) ∷ [] in
      recorded-Ensures (HasBase sha id) (HasBase sha id) (λ _. HasBase sha id)
        (λ _. wrote sha contents ∷ []) (git.write_note sha contents)
        (λ a log h. ((on, (h.1, tt), h.0), before (wrote sha contents) log h.1))
        (λ e log h. ((on, (h.1, tt), h.0), before (wrote sha contents) log h.1))

  read_dockerignore_patterns-Keeps :
      (cwd : String) → Keeps IsSound (read_dockerignore_patterns r b s cwd)
  unfolding read_dockerignore_patterns
  read_dockerignore_patterns-Keeps cwd = record { ends = λ w i. i }

  snapshot-Keeps : Keeps IsSound (snapshot_working_directory r b s)
  unfolding snapshot_working_directory
  snapshot-Keeps = bind-Ensures IsSound (still around.tempdir) λ dir.
      bind-Ensures IsSound (still around.current_dir) λ cwd.
        bind-Ensures IsSound (read_dockerignore_patterns-Keeps cwd) λ patterns.
          bind-Ensures IsSound (still (around.rsync (rsync_args patterns cwd dir))) λ success.
            if-Ensures IsSound success (pure-Keeps IsSound dir) (lift-Keeps IsSound (err failed))

  require_image-Keeps : (image : Option String) → Keeps IsSound (require_image r b s image)
  unfolding require_image
  require_image-Keeps none = lift-Keeps IsSound (err exec_failed)
  require_image-Keeps (some id) = pure-Keeps IsSound id

  patch_image-Keeps :
      (id : String) (patch : Option String) (root : String) (cmd : Option String)
      → Keeps IsSound (patch_image r b s id patch root cmd)
  unfolding patch_image
  patch_image-Keeps id none root none = pure-Keeps IsSound id
  patch_image-Keeps id none root (some cmd) =
      bind-Ensures IsSound (still (builder.build_incremental id none root (some cmd) true))
        require_image-Keeps
  patch_image-Keeps id (some patch) root cmd =
      bind-Ensures IsSound (still (builder.build_incremental id (some patch) root cmd true))
        require_image-Keeps

  thin_diff_if_any-Keeps :
      (image : Option String) (sha root : String)
      → Keeps IsSound (thin_diff_if_any r b s ctx image sha root)
  unfolding thin_diff_if_any thin_diff_outcome try_thin_diff
  thin_diff_if_any-Keeps none sha root = pure-Keeps IsSound cache_miss
  thin_diff_if_any-Keeps (some id) sha root =
      bind-Ensures IsSound
        (attempt-Keeps IsSound (
          bind-Ensures IsSound
            (map_error-Ensures IsSound exec_failed (still (git.generate_checkpoint_diff sha)))
            λ patch. patch_image-Keeps id patch root ctx.post_patch_cmd))
        λ patched. pure-Keeps IsSound (outcome_of r b s ctx patched)

  write_base_note-Keeps :
      (sha : String) (image : Option String)
      → Ensures IsSound
          (λ x. HasImage sha image x.1)
          (write_base_note r b s ctx sha image)
          (λ _. IsSound)
  unfolding write_base_note
  write_base_note-Keeps sha none = pure-Keeps IsSound tt
  write_base_note-Keeps sha (some id) =
      unless-Ensures IsSound (λ x. HasBase sha id x.1) ctx.no_cache (record { ends = λ x h. h.0 })
        λ on. record {
          ends = λ x h.
              forget-Ends IsSound (λ y. HasBase sha id y.1)
                (write_note_for_commit r sha id ctx.config_path x) (λ y k. k.0)
                ((write_note_for_commit-Keeps r (λ y. HasBase sha id y.1)
                    (git-Keeps (HasBase sha id)) sha id ctx.config_path
                    λ key. write_note-Keeps sha key id on).ends
                  x h);
        }

  build_base-Keeps :
      (base : ResolvedBase) (root : String) → Keeps IsSound (build_base r b s ctx base root)
  unfolding build_base
  build_base-Keeps base root = bind-Ensures IsSound (still around.tempdir) λ dir.
      bind-Ensures IsSound (export_tree-Ensures base.base_sha dir) λ _.
        bind-Ensures IsSound
          (map_error-Ensures IsSound failed (
            weaken-Ensures IsSound (IsExported dir base.base_sha) (λ w x. x.0)
              (retry_action-Ensures (IsExported dir base.base_sha)
                (λ image x. HasImage base.base_sha image x.1)
                (build_from_export-Ensures ctx.copy_dirs ctx.config.sandbox_init_cmd base.base_sha
                  dir)
                s.delays)))
          λ image.
            bind-Ensures IsSound (write_base_note-Keeps base.base_sha image)
              λ _. thin_diff_if_any-Keeps image base.base_sha root

  or_build_base-Keeps :
      (base : ResolvedBase) (root : String) (outcome : PrewarmOutcome)
      → Keeps IsSound (or_build_base r b s ctx base root outcome)
  unfolding or_build_base
  or_build_base-Keeps base root (resolved id) = pure-Keeps IsSound (resolved id)
  or_build_base-Keeps base root cache_miss = build_base-Keeps base root

  required-Keeps : (text : Option String) → Keeps IsSound (required r b s ctx text)
  required-Keeps none = lift-Keeps IsSound (err failed)
  required-Keeps (some text) = pure-Keeps IsSound text

  prewarm_from-Keeps : (base : Option ResolvedBase) → Keeps IsSound (prewarm_from r b s ctx base)
  unfolding prewarm_from
  prewarm_from-Keeps none = pure-Keeps IsSound cache_miss
  prewarm_from-Keeps (some base) =
      bind-Ensures IsSound (required-Keeps ctx.config.sandbox_repo_root) λ root.
        bind-Ensures IsSound (thin_diff_if_any-Keeps base.cached_image_id base.base_sha root)
          (or_build_base-Keeps base root)

  finish_full-Keeps : (image cmd : Option String) → Keeps IsSound (finish_full r b s ctx image cmd)
  unfolding finish_full
  finish_full-Keeps none cmd = pure-Keeps IsSound none
  finish_full-Keeps (some id) none = pure-Keeps IsSound (some id)
  finish_full-Keeps (some id) (some cmd) = still _

  full_build_fallback-Keeps : Keeps IsSound (full_build_fallback r b s ctx)
  unfolding full_build_fallback
  full_build_fallback-Keeps =
      bind-Ensures IsSound (map_error-Ensures IsSound exec_failed snapshot-Keeps) λ dir.
        bind-Ensures IsSound
          (map_error-Ensures IsSound exec_failed (
            retry_action-Ensures IsSound (λ _. IsSound)
              (build_full-Keeps ctx.copy_dirs ctx.sandbox_init_cmd (some dir) true) s.delays))
          λ image. finish_full-Keeps image ctx.post_patch_cmd

  prepare_from-Keeps :
      (outcome : Result Failure PrewarmOutcome) → Keeps IsSound (prepare_from r b s ctx outcome)
  unfolding prepare_from
  prepare_from-Keeps (ok (resolved id)) = pure-Keeps IsSound (some id)
  prepare_from-Keeps (ok cache_miss) = full_build_fallback-Keeps
  prepare_from-Keeps (err e) = full_build_fallback-Keeps

  -- Whatever git, the image builder and the file system answer, and whatever fails on the way: each image id that
  -- preparing an image writes into the note of a commit was returned before by a build from a directory whose
  -- latest export is a successful one of that commit, and no note is written where the cache is off.
  pub prepare_with_prewarm-IsAccounted :
      (w : W) → IsAccounted ctx.no_cache (prepare_with_prewarm r b s ctx (w, [])).1.1
  unfolding prepare_with_prewarm run_prewarm_pipeline
  prepare_with_prewarm-IsAccounted w =
      Keeps-snd IsSound
        (bind-Ensures IsSound
          (attempt-Keeps IsSound (
            bind-Ensures IsSound
              (resolve_base-Keeps r IsSound (git-Keeps (IsAccounted ctx.no_cache)) ctx.config_path
                ctx.config ctx.no_cache)
              prewarm_from-Keeps))
          prepare_from-Keeps)
        (w, []) tt
