-- ===== src/History/Reservoir.antt =====
-- src/history/reservoir.rs. A panic (an index out of range) is `none`. `sort_by_key` and `sort_by` are
-- stable, and `min_by` returns the first of several minima.
use offload.Base.{
  ℕ, ◌+◌, Bool, not, Option, none, some, List, [], ◌∷◌, ◌++◌, map, ltb, leb, if◌then◌else◌, length,
  take, set, ◌==◌, comparable_number, comparable_text, sort_by,
}
use offload.History.Data.{Sample}

-- The f64 operations of the reservoir: the seeded random number of a timestamp, its power by the weight
-- of an age, and `<`.
pub record Lottery : Type 1 where
  pub F64 : Type 0
  pub zero_f64 : F64
  pub random : ℕ → F64
  pub weighted : ℕ → F64 → F64
  pub less : F64 → F64 → Bool

module _ (Q : Lottery) where
  open Q use {F64, zero_f64, random, weighted, less}

  pub record WeightedReservoir : Type 0 where
    pub samples : List (Sample F64)
    pub capacity : ℕ

  unfoldable pub with_capacity : ℕ → WeightedReservoir
  with_capacity capacity = record { samples = []; capacity = capacity }

  unfoldable pub compute_key : Sample F64 → ℕ → F64
  compute_key sample age_rank = weighted age_rank (random sample.timestamp_ms)

  abbrev pub newest_first : Sample F64 → Sample F64 → Bool
  newest_first a b = leb b.timestamp_ms a.timestamp_ms

  abbrev pub oldest_first : Sample F64 → Sample F64 → Bool
  oldest_first a b = leb a.timestamp_ms b.timestamp_ms

  -- The keys of samples whose ages count up from `age`.
  unfoldable pub keyed_from : ℕ → List (Sample F64) → List (F64 × Sample F64)
  unfolding compute_key
  keyed_from age [] = []
  keyed_from age (s ∷ ss) = (compute_key s age, s) ∷ keyed_from (age + 1) ss

  -- The position of the least key, given the least one so far and its position.
  unfoldable pub min_from : ℕ × F64 → ℕ → List (F64 × Sample F64) → ℕ × F64
  min_from best i [] = best
  min_from best i ((k, s) ∷ rest) = min_from (if less k best.1 then (i, k) else best) (i + 1) rest

  unfoldable pub min_entry : List (F64 × Sample F64) → ℕ × F64
  unfolding min_from
  min_entry [] = (0, zero_f64)
  min_entry ((k, s) ∷ rest) = min_from (0, k) 1 rest

  unfoldable pub replace_at : WeightedReservoir → ℕ → Sample F64 → Option WeightedReservoir
  replace_at r idx sample =
      if ltb idx (length r.samples)
      then some (record r { samples = set r.samples idx sample })
      else none

  unfoldable pub insert_sample : WeightedReservoir → Sample F64 → Option WeightedReservoir
  unfolding compute_key keyed_from min_entry replace_at
  insert_sample r sample =
      if ltb (length r.samples) r.capacity
      then some (record r { samples = r.samples ++ sample ∷ [] })
      else (let sorted = record r { samples = sort_by newest_first r.samples } in
          let least = min_entry (keyed_from 1 sorted.samples) in
          if less least.1 (compute_key sample 0)
          then replace_at sorted least.0 sample
          else some sorted)

  -- `for cs in … { reservoir.insert(Sample::from(cs.clone())) }`
  unfoldable pub insert_all : WeightedReservoir → List (Sample F64) → Option WeightedReservoir
  unfolding insert_sample
  insert_all r [] = some r
  insert_all r (s ∷ ss) = elim (insert_sample r s) [
    | none ↦ none
    | some grown ↦ insert_all grown ss
  ]

  -- dedup_by_key: a sample is dropped if its timestamp is that of the one kept before it.
  unfoldable pub dedup_after : ℕ → List (Sample F64) → List (Sample F64)
  dedup_after last [] = []
  dedup_after last (s ∷ ss) =
      let same_rest = dedup_after last ss in
      let other_rest = dedup_after s.timestamp_ms ss in
      if s.timestamp_ms == last then same_rest else s ∷ other_rest

  unfoldable pub dedup : List (Sample F64) → List (Sample F64)
  unfolding dedup_after
  dedup [] = []
  dedup (s ∷ ss) = s ∷ dedup_after s.timestamp_ms ss

  abbrev pub heaviest_first : F64 × Sample F64 → F64 × Sample F64 → Bool
  heaviest_first a b = not (less a.0 b.0)

  unfoldable pub downsample : ℕ → List (Sample F64) → List (Sample F64)
  unfolding keyed_from
  downsample capacity samples =
      take capacity
        (map (λ p. p.1) (sort_by heaviest_first (keyed_from 0 (sort_by newest_first samples))))

  unfoldable pub merge : WeightedReservoir → WeightedReservoir → WeightedReservoir
  unfolding dedup downsample
  merge r other =
      let all_samples = dedup (sort_by oldest_first (r.samples ++ other.samples)) in
      if leb (length all_samples) r.capacity
      then record r { samples = all_samples }
      else record r { samples = downsample r.capacity all_samples }
