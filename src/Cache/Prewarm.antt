-- ===== src/Cache/Prewarm.antt =====
-- src/image_cache.rs: an image for the sandboxes, from a cached image if it can be, else from a base
-- build, else from a full build. The image builder is the provider's; the delays of the retries are
-- given. Waiting for the end of the discovery is left out.
use offload.Base.{
  ℕ, String, Bool, true, false, not, ◌&&◌, Option, none, some, List, [], ◌∷◌, ◌++◌, map,
  if◌then◌else◌, is_some, unwrap_or, keep, ◌==◌, comparable_number, comparable_text, Result, ok,
  err, Failure, failed, Action, pure, fail, ◌>>=◌, ◌>>◌, attempt, map_error,
}
use offload.Base.Texts.{trim, lines, strip_prefix}
use offload.Retry.{ProviderError, exec_failed}
use offload.Retry.Actions.{retry_action}
use offload.Git.Paths.{join}
use offload.Cache.{Repository, ResolvedBase, Config, resolve_base, write_note_for_commit}
use Prim.Native.String.{◌++◌ as append}

-- The trait ImageBuilder, whether a call is given the flag of the discovery as a Bool.
pub record ImageBuilder (W : Type 0) : Type 0 where
  pub build_full :
      List (String × String)
      → Option String
      → Bool
      → Option String
      → Action W ProviderError (Option String)
  pub build_incremental :
      String
      → Option String
      → String
      → Option String
      → Bool
      → Action W ProviderError (Option String)

-- PrepareContext in src/provider.rs, without the repository and the override.
pub record PrepareContext : Type 0 where
  pub copy_dirs : List (String × String)
  pub sandbox_init_cmd : Option String
  pub post_patch_cmd : Option String
  pub config : Config
  pub config_path : String
  pub no_cache : Bool

-- What else is outside. `rsync` gives whether it exits with success.
pub record Surroundings (W : Type 0) : Type 0 where
  pub delays : List ℕ
  pub tempdir : Action W Failure String
  pub current_dir : Action W Failure String
  pub read_to_string : String → W → Option String
  pub rsync : List String → Action W Failure Bool

pub data PrewarmOutcome : Type 0 where
  resolved : String → PrewarmOutcome
  cache_miss : PrewarmOutcome

unfoldable pub ignore_patterns : Option String → List String
unfolding lines trim strip_prefix
ignore_patterns none = []
ignore_patterns (some contents) =
    keep (λ l. not (l == "") && not (is_some (strip_prefix l "#"))) (map trim (lines contents))

abbrev pub rsync_args : List String → String → String → List String
rsync_args patterns cwd snapshot =
    "-a" ∷ map (append "--exclude=") patterns ++ "--" ∷ append cwd "/" ∷ snapshot ∷ []

module _ {W : Type 0} (r : Repository W) (b : ImageBuilder W) (s : Surroundings W) where
  unfoldable pub read_dockerignore_patterns : String → Action W Failure (List String)
  unfolding ignore_patterns join
  read_dockerignore_patterns cwd w =
      (ok (ignore_patterns (s.read_to_string (join cwd ".dockerignore") w)), w)

  unfoldable pub snapshot_working_directory : Action W Failure String
  unfolding read_dockerignore_patterns
  snapshot_working_directory = do
    snapshot ← s.tempdir
    cwd ← s.current_dir
    patterns ← read_dockerignore_patterns cwd
    success ← s.rsync (rsync_args patterns cwd snapshot)
    if success then pure snapshot else fail failed

  unfoldable pub require_image : Option String → Action W ProviderError String
  require_image (some image_id) = pure image_id
  require_image none = fail exec_failed

  -- The base image unchanged if there is no diff and no command to run after it.
  unfoldable pub patch_image :
      String → Option String → String → Option String → Action W ProviderError String
  unfolding require_image
  patch_image base_image_id none project_root none = pure base_image_id
  patch_image base_image_id patch_file project_root post_patch_cmd = do
    built ← b.build_incremental base_image_id patch_file project_root post_patch_cmd true
    require_image built

  unfoldable pub try_thin_diff :
      String → String → String → Option String → Action W ProviderError String
  unfolding patch_image
  try_thin_diff base_image_id checkpoint_sha project_root post_patch_cmd = do
    patch_file ← map_error exec_failed (r.generate_checkpoint_diff checkpoint_sha)
    patch_image base_image_id patch_file project_root post_patch_cmd

  module _ (ctx : PrepareContext) where
    abbrev pub outcome_of : Result ProviderError String → PrewarmOutcome
    outcome_of (ok image_id) = resolved image_id
    outcome_of (err _) = cache_miss

    -- The thin diff on an image, where an error is no image.
    unfoldable pub thin_diff_outcome : String → String → String → Action W Failure PrewarmOutcome
    unfolding try_thin_diff
    thin_diff_outcome image_id base_sha patch_root = do
      patched ←
          attempt {E' = Failure} (try_thin_diff image_id base_sha patch_root ctx.post_patch_cmd)
      pure (outcome_of patched)

    -- The first stage, and the end of the second: if there is an image to start from.
    unfoldable pub thin_diff_if_any :
        Option String → String → String → Action W Failure PrewarmOutcome
    unfolding thin_diff_outcome
    thin_diff_if_any none base_sha patch_root = pure cache_miss
    thin_diff_if_any (some image_id) base_sha patch_root =
        thin_diff_outcome image_id base_sha patch_root

    unfoldable pub write_base_note : String → Option String → Action W Failure (Unit {0})
    unfolding write_note_for_commit
    write_base_note base_sha none = pure tt
    write_base_note base_sha (some base_id) =
        if ctx.no_cache then pure tt else write_note_for_commit r base_sha base_id ctx.config_path

    -- The second stage: the tree exported, the base built, its note written, the thin diff.
    unfoldable pub build_base : ResolvedBase → String → Action W Failure PrewarmOutcome
    unfolding retry_action write_base_note thin_diff_if_any
    build_base base patch_root = do
      tree_dir ← s.tempdir
      r.export_tree base.base_sha tree_dir
      base_image_id ← map_error failed (
          retry_action
            (b.build_full ctx.copy_dirs ctx.config.sandbox_init_cmd false (some tree_dir)) s.delays)
      write_base_note base.base_sha base_image_id
      thin_diff_if_any base_image_id base.base_sha patch_root

    abbrev pub required : Option String → Action W Failure String
    required none = fail failed
    required (some text) = pure text

    -- After the first stage.
    unfoldable pub or_build_base :
        ResolvedBase → String → PrewarmOutcome → Action W Failure PrewarmOutcome
    unfolding build_base
    or_build_base base patch_root (resolved image_id) = pure (resolved image_id)
    or_build_base base patch_root cache_miss = build_base base patch_root

    unfoldable pub prewarm_from : Option ResolvedBase → Action W Failure PrewarmOutcome
    unfolding thin_diff_if_any or_build_base
    prewarm_from none = pure cache_miss
    prewarm_from (some base) = do
      patch_root ← required ctx.config.sandbox_repo_root
      from_cache ← thin_diff_if_any base.cached_image_id base.base_sha patch_root
      or_build_base base patch_root from_cache

    unfoldable pub run_prewarm_pipeline : Action W Failure PrewarmOutcome
    unfolding resolve_base prewarm_from
    run_prewarm_pipeline = do
      base ← resolve_base r ctx.config_path ctx.config ctx.no_cache
      prewarm_from base

    -- The command after the patch runs on a fresh image too.
    unfoldable pub finish_full :
        Option String → Option String → Action W ProviderError (Option String)
    finish_full none post_patch_cmd = pure none
    finish_full (some id) none = pure (some id)
    finish_full (some base_id) (some cmd) =
        b.build_incremental base_id none (unwrap_or ctx.config.sandbox_repo_root "/app") (some cmd)
          true

    unfoldable pub full_build_fallback : Action W ProviderError (Option String)
    unfolding snapshot_working_directory retry_action finish_full
    full_build_fallback = do
      context_dir ← map_error exec_failed snapshot_working_directory
      image_id ← map_error exec_failed (
          retry_action (b.build_full ctx.copy_dirs ctx.sandbox_init_cmd true (some context_dir))
            s.delays)
      finish_full image_id ctx.post_patch_cmd

    unfoldable pub prepare_from :
        Result Failure PrewarmOutcome → Action W ProviderError (Option String)
    unfolding full_build_fallback
    prepare_from (ok (resolved image_id)) = pure (some image_id)
    prepare_from (ok cache_miss) = full_build_fallback
    prepare_from (err _) = full_build_fallback

    unfoldable pub prepare_with_prewarm : Action W ProviderError (Option String)
    unfolding run_prewarm_pipeline prepare_from
    prepare_with_prewarm = do
      prewarm ← attempt {E' = ProviderError} run_prewarm_pipeline
      prepare_from prewarm
