-- ===== src/Pool/Samples.antt =====
-- A concrete provider for the theorems about src/orchestrator/pool.rs.
use offload.Base.{
  ℕ, String, ◌≡◌, refl, ◌&&◌, [], ◌∷◌, if◌then◌else◌, ◌==◌, comparable_number, comparable_text, ok,
  err,
}
use mathlib.Core.List.Perm
use offload.Retry.{Outcome, timeout, not_found}
use offload.Pool.{SandboxPool, SandboxProvider, new, add_sandbox, take_all, populate, indices}
use offload.Pool.Populated.{IsPopulated, populate-IsPopulated}

-- The sandbox of index 1 comes at the second try, that of index 2 never.
abbrev sandboxes_but_two : String → ℕ → Outcome String
sandboxes_but_two id i =
    if id == "run-2"
    then err not_found
    else if (id == "run-1") && (i == 0)
    then err timeout
    else ok id

abbrev provider : SandboxProvider String
provider = record { create_sandbox = sandboxes_but_two; delays = 500 ∷ 1000 ∷ [] }

populated :
    populate provider "run" (1 ∷ 0 ∷ []) new
    ≡ (ok tt, record { sandboxes = "run-1" ∷ "run-0" ∷ [] })
unfolding offload.Pool.populate offload.Retry.is_retryable
populated = refl

stopped :
    populate provider "run" (1 ∷ 2 ∷ 0 ∷ []) new
    ≡ (err not_found, record { sandboxes = "run-1" ∷ [] })
unfolding offload.Pool.populate offload.Retry.is_retryable
stopped = refl

populate-IsPopulated_example :
    IsPopulated provider "run"
      (indices 3)
      (1 ∷ 2 ∷ 0 ∷ [])
      new
      (populate provider "run" (1 ∷ 2 ∷ 0 ∷ []) new)
populate-IsPopulated_example =
    populate-IsPopulated provider "run" 3 (1 ∷ 2 ∷ 0 ∷ []) new (Perm.swap 2 1 (0 ∷ []))
