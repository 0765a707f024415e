-- ===== src/History/Union.antt =====
-- The keys that the merge of src/history/merge.rs returns.
use offload.Base.{
  ℕ, ◌≤◌, ◌≡◌, refl, sym, ap, ◌∙◌, inl, inr, Bool, true, false, ◌||◌, Option, none, some, List, [],
  ◌∷◌, arith, if◌then◌else◌, Bool-cases, Option-cases, all, ◌==◌, comparable_number,
  comparable_text, eq→path, contains, add, contains-add, get, insert, get-insert, keys, get-not_key,
}
use offload.History.Data.{Key, comparable_key, HistoryRecord}
use offload.History.Reservoir.{Lottery}
use offload.History.Merge.{Records, merge_key, merge_test_records, union, merge_keys, merge_records}
use offload.History.Merged.{merge_test_records-counters}

module _ (Q : Lottery) where
  abbrev or_else :
      Option (HistoryRecord Q.F64) → Option (HistoryRecord Q.F64) → Option (HistoryRecord Q.F64)
  or_else none o = o
  or_else (some r) o = some r

  module _ (overlap : ℕ → ℕ → ℕ → ℕ) where
    module _ (base ours theirs : Records Q) (c : ℕ) (h : 1 ≤ c) where
      merge_key-some :
          (k : Key)
          → (m : Option (HistoryRecord Q.F64)) × (merge_key Q overlap base ours theirs c k ≡ some m)
      unfolding merge_key
      merge_key-some k = elim (Option-cases (get k ours)) [
        | inl e ↦ (get k theirs, rw (e, merge_key) refl)
        | inr (a, e) ↦ elim (Option-cases (get k theirs)) [
          | inl f ↦ (some a, rw (e, f, merge_key) refl)
          | inr (b, f) ↦
              let j = merge_test_records-counters Q overlap a b (get k base) c h in
              (some j.merged, rw (e, f, j.returned, merge_key) refl)
        ]
      ]

      abbrev at : Key → Option (HistoryRecord Q.F64)
      at k = (merge_key-some k).0

      record Collected (ks : List Key) (merged : Records Q) (o : Option (Records Q)) : Type 0 where
        result : Records Q
        returned : o ≡ some result
        lookups :
            (k : Key)
            → get k result ≡ (if contains k ks then or_else (at k) (get k merged) else get k merged)

      twice :
          (b : Bool) (n o : Option (HistoryRecord Q.F64))
          → (if b then or_else n (or_else n o) else or_else n o) ≡ or_else n o
      twice true none o = refl
      twice false none o = refl
      twice true (some r) o = refl
      twice false (some r) o = refl

      skipped : (b : Bool) (o : Option (HistoryRecord Q.F64)) → (if b then o else o) ≡ o
      skipped true o = refl
      skipped false o = refl

      step_lookup :
          (k key : Key) (rest : Bool) (merged : Option (HistoryRecord Q.F64))
          (m : Option (HistoryRecord Q.F64))
          → at key ≡ m
          → (if rest
              then or_else (at k) (if k == key then or_else m merged else merged)
              else (if k == key then or_else m merged else merged))
            ≡ (if k == key || rest then or_else (at k) merged else merged)
      step_lookup k key rest merged m e = elim (Bool-cases (k == key)) [
        | inl t ↦ rw (t, eq→path k key t, e) (twice rest m merged)
        | inr t ↦ rw t refl
      ]

      skip_lookup :
          (k key : Key) (rest : Bool) (merged : Option (HistoryRecord Q.F64))
          → at key ≡ none
          → (if rest then or_else (at k) merged else merged)
            ≡ (if k == key || rest then or_else (at k) merged else merged)
      skip_lookup k key rest merged e = elim (Bool-cases (k == key)) [
        | inl t ↦ rw (t, eq→path k key t, e) (skipped rest merged)
        | inr t ↦ rw t refl
      ]

      merge_keys-Collected :
          (ks : List Key) (merged : Records Q)
          → Collected ks merged (merge_keys Q overlap base ours theirs c merged ks)
      unfolding merge_keys contains
      merge_keys-Collected [] merged = record {
        result = merged;
        returned = refl;
        lookups = λ k. refl;
      }
      merge_keys-Collected (key ∷ ks) merged =
          let m = merge_key-some key in
          elim (Option-cases m.0) [
            | inl e ↦
                let t = merge_keys-Collected ks merged in
                rw (m.1, e, merge_keys)
                  (record {
                    result = t.result;
                    returned = t.returned;
                    lookups = λ k. t.lookups k ∙ skip_lookup k key (contains k ks) (get k merged) e;
                  })
            | inr (r, e) ↦
                let t = merge_keys-Collected ks (insert key r merged) in
                rw (m.1, e, merge_keys)
                  (record {
                    result = t.result;
                    returned = t.returned;
                    lookups = λ k.
                        t.lookups k
                        ∙ rw (get-insert key k r merged)
                            (step_lookup k key (contains k ks) (get k merged) (some r) e);
                  })
          ]

  contains-union :
      (k : Key) (all ks : List Key)
      → contains k (union Q all ks) ≡ (contains k all || contains k ks)
  unfolding union contains
  contains-union k all [] = ground arith
  contains-union k all (j ∷ ks) =
      contains-union k (add j all) ks ∙ rw (contains-add j k all) (ground arith)

  merge_key-missing :
      (overlap : ℕ → ℕ → ℕ → ℕ) (base ours theirs : Records Q) (c : ℕ) (k : Key)
      → contains k (union Q (keys ours) (keys theirs)) ≡ false
      → merge_key Q overlap base ours theirs c k ≡ some none
  unfolding merge_key
  merge_key-missing overlap base ours theirs c k h =
      let e = contains-union k (keys ours) (keys theirs) in
      rw
        (
          get-not_key k ours (ground (arith, e, h)),
          get-not_key k theirs (ground (arith, e, h)),
          merge_key,
        )
        refl

  all_collected :
      (b : Bool) (m : Option (HistoryRecord Q.F64)) (o : Option (Option (HistoryRecord Q.F64)))
      → o ≡ some m
      → (b ≡ false → o ≡ some none)
      → (if b then or_else m none else none) ≡ m
  all_collected true none o e h = refl
  all_collected true (some r) o e h = refl
  all_collected false m o e h = ground (arith, e, h refl)

  -- The record that a merge is to have for a key, given those of both sides.
  abbrev pub IsChosen :
      (ℕ → ℕ → ℕ → ℕ)
      → Option (HistoryRecord Q.F64)
      → ℕ
      → Option (HistoryRecord Q.F64)
      → Option (HistoryRecord Q.F64)
      → Option (HistoryRecord Q.F64)
      → Type 0
  IsChosen overlap base c none theirs o = o ≡ theirs
  IsChosen overlap base c (some a) none o = o ≡ some a
  IsChosen overlap base c (some a) (some b) o = o ≡ merge_test_records Q overlap a b base c

  merge_key-IsChosen :
      (overlap : ℕ → ℕ → ℕ → ℕ) (base ours theirs : Records Q) (c : ℕ) (k : Key)
      (o : Option (HistoryRecord Q.F64))
      → 1 ≤ c
      → merge_key Q overlap base ours theirs c k ≡ some o
      → IsChosen overlap (get k base) c (get k ours) (get k theirs) o
  unfolding merge_key
  merge_key-IsChosen overlap base ours theirs c k o h e = elim (Option-cases (get k ours)) [
    | inl p ↦
        let given : merge_key Q overlap base ours theirs c k ≡ some (get k theirs) =
          rw (p, merge_key) refl in
        rw p (ground (arith, e, given))
    | inr (a, p) ↦ elim (Option-cases (get k theirs)) [
      | inl q ↦
          let given : merge_key Q overlap base ours theirs c k ≡ some (some a) =
            rw (p, q, merge_key) refl in
          rw (p, q) (ground (arith, e, given))
      | inr (b, q) ↦
          let j = merge_test_records-counters Q overlap a b (get k base) c h in
          let given : merge_key Q overlap base ours theirs c k ≡ some (some j.merged) =
            rw (p, q, j.returned, merge_key) refl in
          rw (p, q) (ground (arith, e, given, j.returned))
    ]
  ]

  -- The records that a merge returned, each key with the record that is to be chosen.
  pub record Merged (overlap : ℕ → ℕ → ℕ → ℕ) (base ours theirs : Records Q) (c : ℕ)
      (o : Option (Records Q)) : Type 0 where
    pub result : Records Q
    pub returned : o ≡ some result
    pub lookups :
        (k : Key) → IsChosen overlap (get k base) c (get k ours) (get k theirs) (get k result)

  -- With a capacity that is not 0, the merge of two sets of records does not panic, and the record of
  -- every key in its result is that of the side that alone has the key, the merge of both records if
  -- both have it, and none if neither has it.
  pub merge_records-Merged :
      (overlap : ℕ → ℕ → ℕ → ℕ) (base ours theirs : Records Q) (c : ℕ)
      → 1 ≤ c
      → Merged overlap base ours theirs c (merge_records Q overlap base ours theirs c)
  unfolding merge_records get
  merge_records-Merged overlap base ours theirs c h =
      let all_keys = union Q (keys ours) (keys theirs) in
      let t = merge_keys-Collected overlap base ours theirs c h all_keys [] in
      record {
        result = t.result;
        returned = t.returned;
        lookups = λ k.
            let m = merge_key-some overlap base ours theirs c h k in
            merge_key-IsChosen overlap base ours theirs c k (get k t.result) h (
              m.1
              ∙ ap some (
                  sym (
                    t.lookups k
                    ∙ all_collected (contains k all_keys) m.0 _ m.1
                        (merge_key-missing overlap base ours theirs c k))));
      }
