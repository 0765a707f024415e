-- ===== src/Cache/Fallback.antt =====
-- When the preparation of an image in src/image_cache.rs fails.
use offload.Base.{◌≡◌, comparable_number, comparable_text, Result, ok, err, Failure}
use offload.Retry.{ProviderError}
use offload.Cache.{Repository}
use offload.Cache.Prewarm.{
  ImageBuilder, PrepareContext, Surroundings, PrewarmOutcome, resolved, cache_miss,
  run_prewarm_pipeline, full_build_fallback, prepare_from, prepare_with_prewarm,
}

module _ {W : Type 0} (r : Repository W) (b : ImageBuilder W) (s : Surroundings W)
    (ctx : PrepareContext) where
  prepare_from_error :
      (x : Result Failure PrewarmOutcome) (w : W) (e : ProviderError)
      → (prepare_from r b s ctx x w).0 ≡ err e
      → (full_build_fallback r b s ctx w).0 ≡ err e
  unfolding prepare_from
  prepare_from_error (ok (resolved id)) w e h = cc
  prepare_from_error (ok cache_miss) w e h = h
  prepare_from_error (err _) w e h = h

  -- No error of git, of the notes, of the base build or of the thin diff makes the preparation fail: it fails
  -- only with the error of the full build, run in the world that the cache's attempts have left.
  pub prepare_with_prewarm_error :
      (w : W) (e : ProviderError)
      → (prepare_with_prewarm r b s ctx w).0 ≡ err e
      → (full_build_fallback r b s ctx (run_prewarm_pipeline r b s ctx w).1).0 ≡ err e
  unfolding prepare_with_prewarm
  prepare_with_prewarm_error w e h =
      prepare_from_error (run_prewarm_pipeline r b s ctx w).0 (run_prewarm_pipeline r b s ctx w).1 e
        h
