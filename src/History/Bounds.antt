-- ===== src/History/Bounds.antt =====
-- What WeightedReservoir::insert and merge of src/history/reservoir.rs keep of the samples.
use offload.Base.{
  ℕ, zero, suc, ◌+◌, ◌≤◌, ◌<◌, min, ◌≡◌, refl, ap, ◌∙◌, subst, inl, inr, false, Option, some, List,
  [], ◌∷◌, ◌++◌, arith, ltb, ltb→lt, lt→ltb, Bool-cases, length, take, set, All, length-append,
  length-set, All-append, comparable_number, comparable_text, sort_by, sort_by-perm, All-sort_by,
  length-perm,
}
use offload.History.Data.{Sample}
use offload.History.Reservoir.{
  Lottery, WeightedReservoir, compute_key, newest_first, keyed_from, min_from, min_entry,
  replace_at, insert_sample, insert_all,
}

module _ {ℓ κ} {A : Type ℓ} (P : A → Type κ) where
  All-set : (xs : List A) (i : ℕ) (v : A) → P v → All P xs → All P (set xs i v)
  All-set [] i v h k = k
  All-set (x ∷ xs) zero v h k = (h, k.1)
  All-set (x ∷ xs) (suc i) v h k = (k.0, All-set xs i v h k.1)

  pub All-take : (n : ℕ) (xs : List A) → All P xs → All P (take n xs)
  All-take zero xs h = tt
  All-take (suc n) [] h = h
  All-take (suc n) (x ∷ xs) h = (h.0, All-take n xs h.1)

module _ (Q : Lottery) where
  length-keyed_from :
      (age : ℕ) (ss : List (Sample Q.F64)) → length (keyed_from Q age ss) ≡ length ss
  unfolding keyed_from
  length-keyed_from age [] = refl
  length-keyed_from age (s ∷ ss) = ap suc (length-keyed_from (age + 1) ss)

  min_from-le :
      (best : ℕ × Q.F64) (i : ℕ) (l : List (Q.F64 × Sample Q.F64))
      → best.0 < i
      → (min_from Q best i l).0 < i + length l
  unfolding min_from
  min_from-le best i [] h = omega arith
  min_from-le best i ((k, s) ∷ l) h = elim (Bool-cases (Q.less k best.1)) [
    | inl t ↦ rw (t, min_from) (omega (arith, min_from-le (i, k) (i + 1) l (omega arith)))
    | inr t ↦ rw (t, min_from) (omega (arith, min_from-le best (i + 1) l (omega arith)))
  ]

  min_entry-le : (l : List (Q.F64 × Sample Q.F64)) → 1 ≤ length l → (min_entry Q l).0 < length l
  unfolding min_entry
  min_entry-le [] h = omega arith
  min_entry-le ((k, s) ∷ l) h = omega (arith, min_from-le (0, k) 1 l (omega arith))

  -- A reservoir that an insertion made of another one, with the sample in it or not.
  pub record Grown {κ} (P : Sample Q.F64 → Type κ) (capacity n : ℕ)
      (o : Option (WeightedReservoir Q)) : Type κ where
    pub result : WeightedReservoir Q
    pub returned : o ≡ some result
    pub same_capacity : result.capacity ≡ capacity
    pub size : length result.samples ≡ n
    pub from_samples : All P result.samples

  length-sorted :
      (r : WeightedReservoir Q) → length (sort_by (newest_first Q) r.samples) ≡ length r.samples
  length-sorted r = length-perm (sort_by-perm (newest_first Q) r.samples)

  replace_at-Grown {κ} :
      (P : Sample Q.F64 → Type κ) (r : WeightedReservoir Q) (i : ℕ) (s : Sample Q.F64)
      → i < length r.samples
      → P s
      → All P r.samples
      → Grown P r.capacity (length r.samples) (replace_at Q r i s)
  unfolding replace_at
  replace_at-Grown P r i s h p k = rw (lt→ltb i (length r.samples) h) (record {
    result = record r { samples = set r.samples i s };
    returned = refl;
    same_capacity = refl;
    size = length-set r.samples i s;
    from_samples = All-set P r.samples i s p k;
  })

  insert_full-Grown {κ} :
      (P : Sample Q.F64 → Type κ) (r : WeightedReservoir Q) (s : Sample Q.F64)
      → ltb (length r.samples) r.capacity ≡ false
      → 1 ≤ length r.samples
      → P s
      → All P r.samples
      → Grown P r.capacity (length r.samples) (insert_sample Q r s)
  unfolding insert_sample
  insert_full-Grown P r s e n p k =
      let sorted = sort_by (newest_first Q) r.samples in
      let least = min_entry Q (keyed_from Q 1 sorted) in
      rw e (elim (Bool-cases (Q.less least.1 (compute_key Q s 0))) [
        | inl t ↦ rw t (
            subst
              (λ m. Grown P r.capacity m (replace_at Q (record r { samples = sorted }) least.0 s))
              (length-sorted r)
              (replace_at-Grown P (record r { samples = sorted }) least.0 s
                (omega (
                  arith,
                  min_entry-le (keyed_from Q 1 sorted)
                      (omega (arith, length-keyed_from 1 sorted, length-sorted r)),
                  length-keyed_from 1 sorted,
                ))
                p (All-sort_by (newest_first Q) P r.samples k)))
        | inr t ↦ rw t (record {
          result = record r { samples = sorted };
          returned = refl;
          same_capacity = refl;
          size = length-sorted r;
          from_samples = All-sort_by (newest_first Q) P r.samples k;
        })
      ])

  pub insert_sample-Grown {κ} :
      (P : Sample Q.F64 → Type κ) (r : WeightedReservoir Q) (s : Sample Q.F64)
      → 1 ≤ r.capacity
      → length r.samples ≤ r.capacity
      → P s
      → All P r.samples
      → Grown P r.capacity (min (length r.samples + 1) r.capacity) (insert_sample Q r s)
  unfolding insert_sample
  insert_sample-Grown P r s c n p k = elim (Bool-cases (ltb (length r.samples) r.capacity)) [
    | inl t ↦ rw t (record {
      result = record r { samples = r.samples ++ s ∷ [] };
      returned = refl;
      same_capacity = refl;
      size =
          omega (arith, length-append r.samples (s ∷ []), ltb→lt (length r.samples) r.capacity t);
      from_samples = All-append P r.samples (s ∷ []) k (p, tt);
    })
    | inr t ↦
        subst (λ m. Grown P r.capacity m (insert_sample Q r s)) (ground (arith, t))
          (insert_full-Grown P r s t (ground (arith, t)) p k)
  ]

  -- Inserting any samples into a reservoir within its capacity, which is not 0, never panics. It holds
  -- as many samples as there were and came, or the capacity if that is less, each of them given.
  pub insert_all-Grown {κ} :
      (P : Sample Q.F64 → Type κ) (c : ℕ) (r : WeightedReservoir Q) (ss : List (Sample Q.F64))
      → 1 ≤ c
      → r.capacity ≡ c
      → length r.samples ≤ c
      → All P r.samples
      → All P ss
      → Grown P c (min (length r.samples + length ss) c) (insert_all Q r ss)
  unfolding insert_all
  insert_all-Grown P c r [] h e n k a = record {
    result = r;
    returned = refl;
    same_capacity = e;
    size = omega (arith, n);
    from_samples = k;
  }
  insert_all-Grown P c r (s ∷ ss) h e n k a =
      let g = insert_sample-Grown P r s (omega (arith, h, e)) (omega (arith, n, e)) a.0 k in
      let grown =
        insert_all-Grown P c g.result ss h (g.same_capacity ∙ e) (omega (arith, g.size, e))
          g.from_samples a.1 in
      rw (g.returned, insert_all)
        (subst (λ m. Grown P c m (insert_all Q g.result ss)) (omega (arith, g.size, e)) grown)
