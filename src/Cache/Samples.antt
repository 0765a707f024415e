-- ===== src/Cache/Samples.antt =====
-- A repository with one commit, a builder and a file system, for the theorems about src/image_cache.rs.
use offload.Base.{
  String, ◌≡◌, refl, true, false, Option, none, some, [], ◌∷◌, if◌then◌else◌, ◌==◌,
  comparable_number, comparable_text, get, ok, err, failed, pure, fail,
}
use offload.Git.{ImageEntry, NoteContents}
use offload.Base.Texts.{strip_prefix}
use offload.Git.Paths.{canonicalize_config_path}
use offload.Retry.{create_failed, exec_failed}
use offload.Retry.Actions.{retry_action}
use offload.Cache.{
  Repository, cached_entry, read_cached_image_for_commit, cached_image_of, latest_commit_at,
  resolve_latest_commit, resolve_mode, update_notes, resolve_inside, resolve_base, note_key,
  write_note_for_commit,
}
use offload.Cache.Prewarm.{
  ImageBuilder, PrepareContext, Surroundings, require_image, patch_image, try_thin_diff,
  thin_diff_outcome, thin_diff_if_any, write_base_note, build_base, or_build_base, prewarm_from,
  run_prewarm_pipeline, full_build_fallback, prepare_from, prepare_with_prewarm,
}
use offload.Cache.Fallback.{prepare_with_prewarm_error}
use offload.Cache.Traced.{
  exported, built, wrote, IsAccounted, traced_repository, traced_builder, traced_surroundings,
}
use offload.Cache.Sound.{prepare_with_prewarm-IsAccounted}
use Prim.Native.String.{◌++◌ as append}

-- The images in the notes by commit and key, and the commit that was exported last.
record World : Type 0 where
  notes : String → String → Option String
  exported : String

abbrev entry_of : Option String → Option NoteContents
entry_of none = none
entry_of (some id) = some (("offload.toml", record { image_id = id }) ∷ [])

abbrev written : Option ImageEntry → Option String → Option String
written none old = old
written (some e) old = some e.image_id

abbrev set_note : String → NoteContents → World → World
set_note sha contents w = record w {
  notes = λ s k. if s == sha then written (get k contents) (w.notes s k) else w.notes s k;
}

abbrev repository : Repository World
repository = record {
  head_sha = pure "c1";
  repo_root = pure "/repo";
  nearest_ancestor_touching = λ _. pure (some "c1");
  read_note = λ sha w. (ok (entry_of (w.notes sha "offload.toml")), w);
  write_note = λ sha contents w. (ok tt, set_note sha contents w);
  push_notes = λ _. fail failed;
  fetch_notes = λ _. pure tt;
  configure_notes_fetch = λ _. pure tt;
  export_tree = λ sha dest w. (ok tt, record w { exported = sha });
  generate_checkpoint_diff = λ sha. pure (some "/tmp/patch");
}

abbrev builder : ImageBuilder World
builder = record {
  build_full = λ copy_dirs init waits dir w.
      (ok (some (append (if waits then "full-" else "base-") w.exported)), w);
  build_incremental = λ id patch root cmd waits. pure (some (append id "-diff"));
}

abbrev surroundings : Surroundings World
surroundings = record {
  delays = 1 ∷ 2 ∷ [];
  tempdir = pure "/tmp/tree";
  current_dir = pure "/repo";
  read_to_string = λ _ _. none;
  rsync = λ _. pure true;
}

abbrev context : PrepareContext
context = record {
  copy_dirs = [];
  sandbox_init_cmd = none;
  post_patch_cmd = some "make";
  config = record { checkpoint = none; sandbox_repo_root = some "/app"; sandbox_init_cmd = none };
  config_path = "./offload.toml";
  no_cache = false;
}

abbrev empty : World
empty = record { notes = λ _ _. none; exported = "" }

prepare_with_prewarm-IsAccounted_example :
    IsAccounted false
      (prepare_with_prewarm
        (traced_repository repository)
        (traced_builder builder)
        (traced_surroundings surroundings)
        context
        (empty, [])).1.1
prepare_with_prewarm-IsAccounted_example =
    prepare_with_prewarm-IsAccounted repository builder surroundings context empty

-- The calls of this run, the last first.
calls :
    (prepare_with_prewarm
      (traced_repository repository)
      (traced_builder builder)
      (traced_surroundings surroundings)
      context
      (empty, [])).1.1
    ≡ wrote "c1" (("offload.toml", record { image_id = "base-c1" }) ∷ [])
      ∷ built (some "/tmp/tree") (some "base-c1")
      ∷ exported "c1" "/tmp/tree" true
      ∷ []
unfolding prepare_with_prewarm run_prewarm_pipeline resolve_base resolve_inside update_notes
    resolve_mode resolve_latest_commit latest_commit_at cached_image_of read_cached_image_for_commit
    cached_entry canonicalize_config_path strip_prefix prewarm_from thin_diff_if_any or_build_base
    build_base retry_action write_base_note write_note_for_commit note_key thin_diff_outcome
    try_thin_diff patch_image require_image prepare_from get
calls = refl

-- The note is that of the base image, and the sandboxes get the image with the diff.
prepared :
    (prepare_with_prewarm repository builder surroundings context empty).0
    ≡ ok (some "base-c1-diff")
unfolding prepare_with_prewarm run_prewarm_pipeline resolve_base resolve_inside update_notes
    resolve_mode resolve_latest_commit latest_commit_at cached_image_of read_cached_image_for_commit
    cached_entry canonicalize_config_path strip_prefix prewarm_from thin_diff_if_any or_build_base
    build_base retry_action write_base_note write_note_for_commit note_key thin_diff_outcome
    try_thin_diff patch_image require_image prepare_from get
prepared = refl

abbrev broken_builder : ImageBuilder World
broken_builder = record {
  build_full = λ copy_dirs init waits dir. fail create_failed;
  build_incremental = λ id patch root cmd waits. fail create_failed;
}

prepare_with_prewarm_error_example :
    (full_build_fallback repository broken_builder surroundings context
      (run_prewarm_pipeline repository broken_builder surroundings context empty).1).0
    ≡ err exec_failed
unfolding prepare_with_prewarm full_build_fallback
prepare_with_prewarm_error_example =
    prepare_with_prewarm_error repository broken_builder surroundings context empty exec_failed refl
