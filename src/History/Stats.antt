-- ===== src/History/Stats.antt =====
-- The percentiles of durations of src/history/store.rs. An index out of range is `none`.
use offload.Base.{
  ℕ, zero, suc, ◌-◌, ◌≤◌, ◌<◌, min, ◌≡◌, refl, ◌∙◌, inl, inr, Bool, not, Option, none, some, List,
  [], ◌∷◌, map, arith, ltb, leb, if◌then◌else◌, Bool-cases, is_some, length, length-map,
  comparable_number, comparable_text, sort_by, sort_by-perm, length-perm,
}
use offload.History.Data.{comparable_key, Sample}
use offload.History.Reservoir.{Lottery}

-- The position `(p / 100 * last).round()`, computed in f64, as usize.
pub record Statistics (Q : Lottery) : Type 0 where
  pub position : ℕ → ℕ → ℕ

pub record DurationStats (F64 : Type 0) : Type 0 where
  pub p50_secs : F64
  pub p75_secs : F64
  pub p90_secs : F64
  pub p95_secs : F64

module _ {Q : Lottery} (S : Statistics Q) where
  abbrev pub nth {ℓ} : {A : Type ℓ} → List A → ℕ → Option A
  nth [] i = none
  nth (x ∷ xs) zero = some x
  nth (x ∷ xs) (suc i) = nth xs i

  unfoldable pub percentile : List Q.F64 → ℕ → Option Q.F64
  percentile sorted p = nth sorted (min (S.position p (length sorted - 1)) (length sorted - 1))

  abbrev pub shorter_first : Q.F64 → Q.F64 → Bool
  shorter_first a b = not (Q.less b a)

  -- `none` is a panic, `some none` that there are too few samples.
  unfoldable pub compute_percentiles : List (Sample Q.F64) → Option (Option (DurationStats Q.F64))
  unfolding percentile sort_by
  compute_percentiles samples =
      let durations = sort_by shorter_first (map (λ s. s.duration_secs) samples) in
      if ltb (length samples) 5 then some none else elim (percentile durations 50) [
        | none ↦ none
        | some p50 ↦ elim (percentile durations 75) [
          | none ↦ none
          | some p75 ↦ elim (percentile durations 90) [
            | none ↦ none
            | some p90 ↦ elim (percentile durations 95) [
              | none ↦ none
              | some p95 ↦
                  some (
                    some
                      (record { p50_secs = p50; p75_secs = p75; p90_secs = p90; p95_secs = p95 }))
            ]
          ]
        ]
      ]

  nth-some : {A : Type 0} (xs : List A) (i : ℕ) → i < length xs → (x : A) × (nth xs i ≡ some x)
  nth-some [] i h = absurd (omega arith)
  nth-some (x ∷ xs) zero h = (x, refl)
  nth-some (x ∷ xs) (suc i) h = nth-some xs i (omega (arith, h))

  pub percentile-some :
      (xs : List Q.F64) (p : ℕ) → 1 ≤ length xs → (x : Q.F64) × (percentile xs p ≡ some x)
  unfolding percentile
  percentile-some xs p h =
      nth-some xs (min (S.position p (length xs - 1)) (length xs - 1)) (omega (arith, h))

  pub record Computed (n : ℕ) (o : Option (Option (DurationStats Q.F64))) : Type 0 where
    pub stats : Option (DurationStats Q.F64)
    pub returned : o ≡ some stats
    pub enough : is_some stats ≡ leb 5 n

  -- Percentiles never panic, wherever rounding puts their positions, and they exist from five samples on.
  pub compute_percentiles-Computed :
      (samples : List (Sample Q.F64)) → Computed (length samples) (compute_percentiles samples)
  unfolding compute_percentiles
  compute_percentiles-Computed samples =
      let durations = sort_by shorter_first (map (λ s. s.duration_secs) samples) in
      elim (Bool-cases (ltb (length samples) 5)) [
        | inl t ↦ rw t (record { stats = none; returned = refl; enough = ground (arith, t) })
        | inr t ↦
            let size : length durations ≡ length samples =
              length-perm (sort_by-perm shorter_first (map (λ s. s.duration_secs) samples))
              ∙ length-map (λ s. s.duration_secs) samples in
            let some_samples : 1 ≤ length durations = ground (arith, t, size) in
            let a = percentile-some durations 50 some_samples in
            let b = percentile-some durations 75 some_samples in
            let c = percentile-some durations 90 some_samples in
            let d = percentile-some durations 95 some_samples in
            rw (t, a.1, b.1, c.1, d.1)
              (record { stats = some _; returned = refl; enough = ground (arith, t) })
      ]
