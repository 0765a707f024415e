-- ===== src/Retry/Actions.antt =====
-- `with_retry!` of src/provider/retry.rs around an expression that changes what is outside.

use offload.Base.{
  ℕ, zero, suc, ◌≡◌, inl, inr, List, [], ◌∷◌, if◌then◌else◌, Bool-cases, comparable_number,
  comparable_text, Result, ok, err, Action, Ends, Ensures,
}
use offload.Retry.{ProviderError, Outcome, Outcome-cases, is_retryable}

module _ {W A : Type 0} (m : Action W ProviderError A) where
  unfoldable pub retry_action : List ℕ → Action W ProviderError A
  unfolding is_retryable
  retry_action [] w = m w
  retry_action (delay ∷ delays) w =
      let again = retry_action delays (m w).1 in
      elim (m w).0 [ ok v ↦ m w | err e ↦ if is_retryable e then again else m w ]

  -- What is outside after `n` evaluations.
  abbrev pub after : ℕ → W → W
  after zero w = w
  after (suc n) w = (m (after n w)).1

  abbrev pub answers : W → ℕ → Outcome A
  answers w i = (m (after i w)).0

  abbrev pub ended : W → Outcome A × ℕ → Outcome A × W
  ended w (r, n) = (r, after n w)

-- Whatever each evaluation makes of the world, the retries make of it.
module _ {W A : Type 0} (I : W → Type 0) (Q : A → W → Type 0) {m : Action W ProviderError A}
    (each : Ensures I I m Q) where
  err-Ends : (x : Result ProviderError A × W) (e : ProviderError) → Ends I Q x → x.0 ≡ err e → I x.1
  err-Ends (ok a, w) e h eq = cc
  err-Ends (err _, w) e h eq = h

  retry_action-Ends : (delays : List ℕ) (w : W) → I w → Ends I Q (retry_action m delays w)
  unfolding retry_action
  retry_action-Ends [] w i = each.ends w i
  retry_action-Ends (d ∷ ds) w i =
      let now = each.ends w i in
      elim (Outcome-cases (m w).0) [
        | inl (v, e) ↦ rw (e, retry_action) now
        | inr (x, e) ↦ elim (Bool-cases (is_retryable x)) [
          | inl t ↦ rw (e, retry_action, t) (retry_action-Ends ds (m w).1 (err-Ends (m w) x now e))
          | inr t ↦ rw (e, retry_action, t) now
        ]
      ]

  pub retry_action-Ensures : (delays : List ℕ) → Ensures I I (retry_action m delays) Q
  retry_action-Ensures delays = record { ends = retry_action-Ends delays }
