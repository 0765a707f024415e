-- ===== src/Retry.antt =====
-- src/provider/retry.rs: the macro `with_retry!`. What the retried expression returns at each of its
-- evaluations is a function of their number. The delays come from the backoff library; waiting and the
-- messages of errors are left out.
pub mod Actions
use offload.Base.{
  ℕ, zero, suc, ◌+◌, ◌≤◌, ◌≡◌, refl, ap, ◌∙◌, subst, ◌⊎◌, inl, inr, Bool, true, false, List, [],
  ◌∷◌, arith, if◌then◌else◌, Bool-cases, length, comparable_number, comparable_text, Result, ok,
  err,
}

-- ProviderError in src/provider.rs.
pub data ProviderError : Type 0 where
  create_failed exec_failed download_failed not_found connection timeout sandbox_exhausted io
        other :
      ProviderError

-- ProviderResult
abbrev pub Outcome : Type 0 → Type 0
Outcome A = Result ProviderError A

abbrev pub provider_retries : ℕ
provider_retries = 2

unfoldable pub is_retryable : ProviderError → Bool
is_retryable timeout = true
is_retryable connection = true
is_retryable sandbox_exhausted = true
is_retryable exec_failed = true
is_retryable download_failed = true
is_retryable io = true
is_retryable _ = false

module _ {A : Type 0} where
  -- The loop from the evaluation `i` on, with the delays that are left: its value, and how many
  -- evaluations there were in all.
  unfoldable pub retry_loop : (ℕ → Outcome A) → ℕ → List ℕ → Outcome A × ℕ
  unfolding is_retryable
  retry_loop expr i [] = (expr i, i + 1)
  retry_loop expr i (delay ∷ delays) =
      let again = retry_loop expr (i + 1) delays in
      elim (expr i) [
        | ok v ↦ (ok v, i + 1)
        | err e ↦ if is_retryable e then again else (err e, i + 1)
      ]

  unfoldable pub with_retry : List ℕ → (ℕ → Outcome A) → Outcome A × ℕ
  unfolding retry_loop
  with_retry delays expr = retry_loop expr 0 delays

  abbrev pub is_transient : Outcome A → Bool
  is_transient (ok v) = false
  is_transient (err e) = is_retryable e

  -- The number of transient errors in a row from `i` on, at most `n`.
  abbrev pub transient_run : (ℕ → Outcome A) → ℕ → ℕ → ℕ
  transient_run expr i zero = 0
  transient_run expr i (suc n) =
      let rest = transient_run expr (i + 1) n in if is_transient (expr i) then suc rest else 0

  transient_run-le : (expr : ℕ → Outcome A) (i n : ℕ) → transient_run expr i n ≤ n
  transient_run-le expr i zero = omega arith
  transient_run-le expr i (suc n) = ground (arith, transient_run-le expr (i + 1) n)

  pub Outcome-cases : (o : Outcome A) → ((v : A) × (o ≡ ok v)) ⊎ ((e : ProviderError) × (o ≡ err e))
  Outcome-cases (ok v) = inl (v, refl)
  Outcome-cases (err e) = inr (e, refl)

  abbrev evaluated : (ℕ → Outcome A) → ℕ → Outcome A × ℕ
  evaluated expr i = (expr i, i + 1)

  settled_at :
      (expr : ℕ → Outcome A) (i : ℕ) (o : Outcome A)
      → expr i ≡ o
      → (o, i + 1) ≡ evaluated expr (i + 0)
  settled_at expr i o e =
      subst (λ x. (x, i + 1) ≡ evaluated expr (i + 0)) e (ap (evaluated expr) (omega arith))

  pub retry_loop-transient_run :
      (expr : ℕ → Outcome A) (i : ℕ) (delays : List ℕ)
      → retry_loop expr i delays ≡ (
        expr (i + transient_run expr i (length delays)),
        i + transient_run expr i (length delays) + 1,
      )
  unfolding retry_loop
  retry_loop-transient_run expr i [] = ground arith
  retry_loop-transient_run expr i (d ∷ ds) =
      let n = length ds in
      let next = retry_loop-transient_run expr (i + 1) ds in
      elim (Outcome-cases (expr i)) [
        | inl (v, e) ↦ rw (e, retry_loop, transient_run) (settled_at expr i (ok v) e)
        | inr (x, e) ↦ elim (Bool-cases (is_retryable x)) [
          | inl t ↦ rw (e, retry_loop, transient_run, t) (next ∙ ap (evaluated expr) (omega arith))
          | inr t ↦ rw (e, retry_loop, transient_run, t) (settled_at expr i (err x) e)
        ]
      ]

  -- With as many delays as there are retries, the expression is evaluated at most three times. It is
  -- evaluated again after each transient error in a row, and its last value is returned.
  pub with_retry-transient_run :
      (delays : List ℕ) (expr : ℕ → Outcome A)
      → length delays ≡ provider_retries
      → (with_retry delays expr ≡ (
        expr (transient_run expr 0 provider_retries),
        transient_run expr 0 provider_retries + 1,
      ))
        × (transient_run expr 0 provider_retries + 1 ≤ 3)
  unfolding with_retry
  with_retry-transient_run delays expr h = (
    subst
        (λ n.
          retry_loop expr 0 delays ≡ (expr (transient_run expr 0 n), transient_run expr 0 n + 1))
        h (retry_loop-transient_run expr 0 delays ∙ ap (evaluated expr) (omega arith)),
    omega (arith, transient_run-le expr 0 provider_retries),
  )
