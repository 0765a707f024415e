-- ===== src/History/Merging.antt =====
-- What WeightedReservoir::merge of src/history/reservoir.rs keeps.
use offload.Base.{
  ℕ, zero, suc, ◌+◌, ◌≤◌, ◌<◌, ◌≡◌, refl, ap, ◌∙◌, inl, inr, true, false, ◌||◌, List, [], ◌∷◌, ◌++◌,
  map, arith, leb, leb→le, le→leb, Bool-cases, length, take, All, length-append, length-take,
  All-append, All-imp, Comparable, ◌==◌, comparable_number, comparable_text, contains, Distinct,
  sort_by, sort_by-perm, IsSorted, All-sort_by, sort_by-IsSorted, length-perm, contains-sort_by,
  Distinct-sort_by,
}
use offload.History.Data.{Sample}
use offload.History.Reservoir.{
  Lottery, WeightedReservoir, newest_first, oldest_first, keyed_from, dedup_after, dedup,
  heaviest_first, downsample, merge,
}
use offload.History.Bounds.{All-take}

abbrev pub timestamps : {F64 : Type 0} → List (Sample F64) → List ℕ
timestamps ss = map (λ s. s.timestamp_ms) ss

module _ {K : Type 0} ⦃e : Comparable K⦄ where
  contains-take-false :
      (k : K) (n : ℕ) (xs : List K) → contains k xs ≡ false → contains k (take n xs) ≡ false
  unfolding contains
  contains-take-false k zero xs h = refl
  contains-take-false k (suc n) [] h = refl
  contains-take-false k (suc n) (x ∷ xs) h = ground (arith, contains-take-false k n xs)

  Distinct-take : (n : ℕ) (xs : List K) → Distinct xs → Distinct (take n xs)
  Distinct-take zero xs d = tt
  Distinct-take (suc n) [] d = tt
  Distinct-take (suc n) (x ∷ xs) d = (contains-take-false x n xs d.0, Distinct-take n xs d.1)

map-take : {A B : Type 0} (f : A → B) (n : ℕ) (xs : List A) → map f (take n xs) ≡ take n (map f xs)
map-take f zero xs = refl
map-take f (suc n) [] = refl
map-take f (suc n) (x ∷ xs) = ap (◌∷◌ (f x)) (map-take f n xs)

module _ (Q : Lottery) where
  -- Timestamps from a bound up do not hold a number below it.
  Above : ℕ → List (Sample Q.F64) → Type 0
  Above m ss = All (λ s. m < s.timestamp_ms) ss

  Above-contains :
      (m : ℕ) (ss : List (Sample Q.F64)) → Above m ss → contains m (timestamps ss) ≡ false
  unfolding Above contains
  Above-contains m [] h = refl
  Above-contains m (s ∷ ss) h = ground (arith, Above-contains m ss h.1, h.0)

  dedup_after-Above :
      (last : ℕ) (ss : List (Sample Q.F64))
      → All (λ s. last ≤ s.timestamp_ms) ss
      → IsSorted (oldest_first Q) ss
      → Above last (dedup_after Q last ss) × Distinct (timestamps (dedup_after Q last ss))
  unfolding Above dedup_after
  dedup_after-Above last [] h d = (tt, tt)
  dedup_after-Above last (s ∷ ss) h d = elim (Bool-cases (s.timestamp_ms == last)) [
    | inl t ↦ rw t (dedup_after-Above last ss h.1 d.1)
    | inr t ↦
        let later : All (λ x. s.timestamp_ms ≤ x.timestamp_ms) ss =
          All-imp (λ x (p : oldest_first Q s x ≡ true). leb→le s.timestamp_ms x.timestamp_ms p) ss
            d.0 in
        let rest = dedup_after-Above s.timestamp_ms ss later d.1 in
        let past : last < s.timestamp_ms = ground (arith, h.0) in
        rw t (
          (
            past,
            All-imp (λ x (p : s.timestamp_ms < x.timestamp_ms). omega (arith, past, p))
                (dedup_after Q s.timestamp_ms ss) rest.0,
          ),
          (Above-contains s.timestamp_ms (dedup_after Q s.timestamp_ms ss) rest.0, rest.1),
        )
  ]

  dedup-Distinct :
      (ss : List (Sample Q.F64)) → IsSorted (oldest_first Q) ss → Distinct (timestamps (dedup Q ss))
  unfolding dedup
  dedup-Distinct [] d = tt
  dedup-Distinct (s ∷ ss) d =
      let rest =
        dedup_after-Above s.timestamp_ms ss
          (All-imp (λ x (p : oldest_first Q s x ≡ true). leb→le s.timestamp_ms x.timestamp_ms p) ss
            d.0)
          d.1 in
      (Above-contains s.timestamp_ms (dedup_after Q s.timestamp_ms ss) rest.0, rest.1)

  contains-dedup_after :
      (k last : ℕ) (ss : List (Sample Q.F64))
      → (k == last || contains k (timestamps (dedup_after Q last ss)))
        ≡ (k == last || contains k (timestamps ss))
  unfolding dedup_after contains
  contains-dedup_after k last [] = refl
  contains-dedup_after k last (s ∷ ss) =
      ground (arith, contains-dedup_after k last ss, contains-dedup_after k s.timestamp_ms ss)

  contains-dedup :
      (k : ℕ) (ss : List (Sample Q.F64))
      → contains k (timestamps (dedup Q ss)) ≡ contains k (timestamps ss)
  unfolding dedup contains
  contains-dedup k [] = refl
  contains-dedup k (s ∷ ss) = contains-dedup_after k s.timestamp_ms ss

  timestamps-map :
      (l : List (Q.F64 × Sample Q.F64))
      → timestamps (map (λ p. p.1) l) ≡ map (λ p. p.1.timestamp_ms) l
  timestamps-map [] = refl
  timestamps-map (p ∷ l) = ap (◌∷◌ p.1.timestamp_ms) (timestamps-map l)

  map-keyed_from :
      (age : ℕ) (ss : List (Sample Q.F64))
      → map (λ p. p.1.timestamp_ms) (keyed_from Q age ss) ≡ timestamps ss
  unfolding keyed_from
  map-keyed_from age [] = refl
  map-keyed_from age (s ∷ ss) = ap (◌∷◌ s.timestamp_ms) (map-keyed_from (age + 1) ss)

  downsample-Distinct :
      (c : ℕ) (ss : List (Sample Q.F64))
      → Distinct (timestamps ss)
      → Distinct (timestamps (downsample Q c ss))
  unfolding downsample
  downsample-Distinct c ss d =
      let sorted = sort_by (newest_first Q) ss in
      let by_key = sort_by (heaviest_first Q) (keyed_from Q 0 sorted) in
      rw (map-take (λ s. s.timestamp_ms) c (map (λ p. p.1) by_key), timestamps-map by_key)
        (Distinct-take c (map (λ p. p.1.timestamp_ms) by_key) (
          Distinct-sort_by (heaviest_first Q) (λ p. p.1.timestamp_ms) (keyed_from Q 0 sorted)
            (rw (map-keyed_from 0 sorted)
              (Distinct-sort_by (newest_first Q) (λ s. s.timestamp_ms) ss d))))

  module _ {κ} (P : Sample Q.F64 → Type κ) where
    All-dedup_after :
        (last : ℕ) (ss : List (Sample Q.F64)) → All P ss → All P (dedup_after Q last ss)
    unfolding dedup_after
    All-dedup_after last [] h = h
    All-dedup_after last (s ∷ ss) h = elim (Bool-cases (s.timestamp_ms == last)) [
      | inl t ↦ rw t (All-dedup_after last ss h.1)
      | inr t ↦ rw t (h.0, All-dedup_after s.timestamp_ms ss h.1)
    ]

    All-dedup : (ss : List (Sample Q.F64)) → All P ss → All P (dedup Q ss)
    unfolding dedup
    All-dedup [] h = h
    All-dedup (s ∷ ss) h = (h.0, All-dedup_after s.timestamp_ms ss h.1)

    All-keyed_from :
        (age : ℕ) (ss : List (Sample Q.F64)) → All P ss → All (λ p. P p.1) (keyed_from Q age ss)
    unfolding keyed_from
    All-keyed_from age [] h = h
    All-keyed_from age (s ∷ ss) h = (h.0, All-keyed_from (age + 1) ss h.1)

    All-seconds : (l : List (Q.F64 × Sample Q.F64)) → All (λ p. P p.1) l → All P (map (λ p. p.1) l)
    All-seconds [] h = h
    All-seconds (p ∷ l) h = (h.0, All-seconds l h.1)

    All-downsample : (c : ℕ) (ss : List (Sample Q.F64)) → All P ss → All P (downsample Q c ss)
    unfolding downsample
    All-downsample c ss h =
        let sorted = sort_by (newest_first Q) ss in
        let by_key = sort_by (heaviest_first Q) (keyed_from Q 0 sorted) in
        All-take P c (map (λ p. p.1) by_key) (
          All-seconds by_key (
            All-sort_by (heaviest_first Q) (λ p. P p.1) (keyed_from Q 0 sorted)
              (All-keyed_from 0 sorted (All-sort_by (newest_first Q) P ss h))))

  length-downsample : (c : ℕ) (ss : List (Sample Q.F64)) → length (downsample Q c ss) ≤ c
  unfolding downsample
  length-downsample c ss =
      let l =
        map (λ p. p.1)
          (sort_by (heaviest_first Q) (keyed_from Q 0 (sort_by (newest_first Q) ss))) in
      omega (arith, length-take c l)

  length-dedup_after :
      (last : ℕ) (ss : List (Sample Q.F64)) → length (dedup_after Q last ss) ≤ length ss
  unfolding dedup_after
  length-dedup_after last [] = omega arith
  length-dedup_after last (s ∷ ss) =
      ground (arith, length-dedup_after last ss, length-dedup_after s.timestamp_ms ss)

  length-dedup : (ss : List (Sample Q.F64)) → length (dedup Q ss) ≤ length ss
  unfolding dedup
  length-dedup [] = omega arith
  length-dedup (s ∷ ss) = omega (arith, length-dedup_after s.timestamp_ms ss)

  contains-append :
      (k : ℕ) (xs ys : List (Sample Q.F64))
      → contains k (timestamps (xs ++ ys))
        ≡ (contains k (timestamps xs) || contains k (timestamps ys))
  unfolding contains
  contains-append k [] ys = refl
  contains-append k (x ∷ xs) ys = ground (arith, contains-append k xs ys)

  -- The samples before the reservoir is cut down to its capacity.
  combined : WeightedReservoir Q → WeightedReservoir Q → List (Sample Q.F64)
  combined r o = dedup Q (sort_by (oldest_first Q) (r.samples ++ o.samples))

  combined-Distinct : (r o : WeightedReservoir Q) → Distinct (timestamps (combined r o))
  unfolding combined
  combined-Distinct r o = dedup-Distinct (sort_by (oldest_first Q) (r.samples ++ o.samples)) (
      sort_by-IsSorted (oldest_first Q) (λ a b h. ground (arith, h))
        (λ a b c h k. ground (arith, h, k)) (r.samples ++ o.samples))

  -- A merged reservoir is within its capacity and holds no timestamp twice, and each of its samples is
  -- one of the two reservoirs.
  pub merge-IsBounded {κ} :
      (P : Sample Q.F64 → Type κ) (r o : WeightedReservoir Q)
      → All P r.samples
      → All P o.samples
      → (length (merge Q r o).samples ≤ r.capacity)
        × Distinct (timestamps (merge Q r o).samples)
        × All P (merge Q r o).samples
  unfolding merge combined
  merge-IsBounded P r o h k =
      let given = All-dedup P (sort_by (oldest_first Q) (r.samples ++ o.samples)) (
        All-sort_by (oldest_first Q) P (r.samples ++ o.samples)
          (All-append P r.samples o.samples h k)) in
      elim (Bool-cases (leb (length (combined r o)) r.capacity)) [
        | inl t ↦ rw t (leb→le (length (combined r o)) r.capacity t, combined-Distinct r o, given)
        | inr t ↦ rw t (
          length-downsample r.capacity (combined r o),
          downsample-Distinct r.capacity (combined r o) (combined-Distinct r o),
          All-downsample P r.capacity (combined r o) given,
        )
      ]

  -- As long as both reservoirs together fit, no timestamp of either is lost and none is added.
  pub contains-merge :
      (k : ℕ) (r o : WeightedReservoir Q)
      → length r.samples + length o.samples ≤ r.capacity
      → contains k (timestamps (merge Q r o).samples)
        ≡ (contains k (timestamps r.samples) || contains k (timestamps o.samples))
  unfolding merge
  contains-merge k r o h =
      let sorted = sort_by (oldest_first Q) (r.samples ++ o.samples) in
      rw
        (le→leb (length (dedup Q sorted)) r.capacity (
          omega (
            arith,
            length-dedup sorted,
            length-perm (sort_by-perm (oldest_first Q) (r.samples ++ o.samples)),
            length-append r.samples o.samples,
            h,
          )))
        (contains-dedup k sorted
          ∙ contains-sort_by (oldest_first Q) (λ s. s.timestamp_ms) k (r.samples ++ o.samples)
          ∙ contains-append k r.samples o.samples)
