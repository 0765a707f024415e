-- ===== src/Scheduler/Factor.antt =====
-- The makespan of a new scheduler of src/orchestrator/scheduler.rs.
use Prim.Native.String.{len}
use offload.Base.{
  ℕ, ◌*◌, ◌≤◌, ◌<◌, min, String, ◌≡◌, refl, ap, ◌∙◌, subst, inl, inr, not, List, [], ◌∷◌, map,
  arith, Option-cases, length, replicate, keep, sum_of, All, length-replicate, length-map,
  length-keep-le, sum_of-append, All-append, All-replicate, All-imp, All-keep, comparable_number,
  comparable_text, contains, Distinct, sort_by, sort_by-perm, All-sort_by, sum_of-perm, length-perm,
  Distinct-sort_by,
}
use offload.Framework.{TestInstance}
use offload.Scheduler.Batch
use offload.Scheduler.Batch.{Batch, max_batch_command_len}
use offload.Scheduler.Assign.{Durations, duration_of, target_idx, assign, assign_all}
use offload.Scheduler.Build.{
  scheduled, heavier_first, longer_first, tests_with_duration, lpt_batches, lpt_queue,
}
use offload.Scheduler.Limits.{ids_of, command_len_of, All-add_at, add_at-length}
use offload.Scheduler.Makespan.{Roomy, Balanced, load_sum-replicate, assign_all-Balanced}

-- The load of a batch is the time of its tests.
module _ (ds gs : Durations) where
  abbrev pub time_of : List TestInstance → ℕ
  time_of = sum_of (duration_of ds gs)

  abbrev Timed : Batch → Type 0
  Timed b = b.load ≡ time_of b.tests

  add_test-Timed :
      (b : Batch) (t : TestInstance) (d : ℕ)
      → d ≡ duration_of ds gs t
      → Timed b
      → Timed (Batch.add_test b t d)
  unfolding Batch.add_test
  add_test-Timed b t d e h = omega (arith, e, h, sum_of-append (duration_of ds gs) b.tests (t ∷ []))

  assign-Timed :
      (bs : List Batch) (t : TestInstance) (d : ℕ)
      → d ≡ duration_of ds gs t
      → All Timed bs
      → All Timed (assign bs t d)
  unfolding assign
  assign-Timed bs t d same h = elim (Option-cases (target_idx t.id bs)) [
    | inr ((idx, load), e) ↦
        rw (e, assign)
          (All-add_at Timed Timed t d bs idx load e (λ b k. k)
            (λ b _ _ k. add_test-Timed b t d same k) h)
    | inl e ↦
        rw (e, assign)
          (rw (add_at-length bs Batch.new t d) (
            All-append Timed bs _ h
              (add_test-Timed Batch.new t d same (unfold Batch.new in refl), tt)))
  ]

  assign_all-Timed :
      (bs : List Batch) (tds : List (TestInstance × ℕ))
      → All (λ p. p.1 ≡ duration_of ds gs p.0) tds
      → All Timed bs
      → All Timed (assign_all bs tds)
  unfolding assign_all
  assign_all-Timed bs [] same h = h
  assign_all-Timed bs ((t, d) ∷ rest) same h =
      assign_all-Timed (assign bs t d) rest same.1 (assign-Timed bs t d same.0 h)

module _ (ds gs : Durations) (ts : List TestInstance) where
  abbrev pairs : List (TestInstance × ℕ)
  pairs = map (λ t. (t, duration_of ds gs t)) ts

map-pairs :
    (ds gs : Durations) (ts : List TestInstance) → map (λ p. p.0.id) (pairs ds gs ts) ≡ ids_of ts
map-pairs ds gs [] = refl
map-pairs ds gs (t ∷ ts) = ap (◌∷◌ t.id) (map-pairs ds gs ts)

sum-pairs :
    (ds gs : Durations) (f : TestInstance × ℕ → ℕ) (ts : List TestInstance)
    → sum_of f (pairs ds gs ts) ≡ sum_of (λ t. f (t, duration_of ds gs t)) ts
sum-pairs ds gs f [] = refl
sum-pairs ds gs f (t ∷ ts) = omega (arith, sum-pairs ds gs f ts)

All-pairs {ℓ} :
    (ds gs : Durations) (P : TestInstance × ℕ → Type ℓ) (ts : List TestInstance)
    → All (λ t. P (t, duration_of ds gs t)) ts
    → All P (pairs ds gs ts)
All-pairs ds gs P [] h = tt
All-pairs ds gs P (t ∷ ts) h = (h.0, All-pairs ds gs P ts h.1)

All-refl :
    (ds gs : Durations) (ts : List TestInstance)
    → All (λ t. duration_of ds gs t ≡ duration_of ds gs t) ts
All-refl ds gs [] = tt
All-refl ds gs (t ∷ ts) = (refl, All-refl ds gs ts)

lpt_batches-Timed :
    (n : ℕ) (ds gs : Durations) (ts : List TestInstance)
    → All (Timed ds gs) (lpt_batches n ds gs ts)
unfolding lpt_batches tests_with_duration
lpt_batches-Timed n ds gs ts =
    assign_all-Timed ds gs _ _
      (All-sort_by longer_first (λ p. p.1 ≡ duration_of ds gs p.0) (pairs ds gs ts)
        (All-pairs ds gs (λ p. p.1 ≡ duration_of ds gs p.0) ts (All-refl ds gs ts)))
      (All-replicate (Timed ds gs) (min n (length ts)) Batch.new (unfold Batch.new in refl))

start-Balanced :
    (m T : ℕ) (ids : List String) (room : ℕ)
    → room ≤ max_batch_command_len
    → Balanced m T 0 ids room (replicate m Batch.new)
unfolding Batch.new contains
start-Balanced m T ids room h = record {
  count = length-replicate m Batch.new;
  roomy =
      All-replicate (Roomy ids room) m Batch.new
        (record { apart = λ k e. refl; short = omega (arith, h) });
  total = omega (arith, load_sum-replicate m);
  bound = All-replicate (λ b. b.load ≤ 2 * T) m Batch.new (omega arith);
}

lpt_batches-Balanced :
    (n : ℕ) (ds gs : Durations) (ts : List TestInstance) (T : ℕ)
    → 0 < min n (length ts)
    → Distinct (ids_of ts)
    → command_len_of ts ≤ max_batch_command_len
    → time_of ds gs ts ≤ min n (length ts) * T
    → All (λ t. duration_of ds gs t ≤ T) ts
    → Balanced (min n (length ts)) T (time_of ds gs ts) [] 0 (lpt_batches n ds gs ts)
unfolding lpt_batches tests_with_duration
lpt_batches-Balanced n ds gs ts T p d c fits each =
    let tds = sort_by longer_first (pairs ds gs ts) in
    let time : sum_of (λ (q : TestInstance × ℕ). q.1) tds ≡ time_of ds gs ts =
      sum_of-perm (λ (q : TestInstance × ℕ). q.1) (sort_by-perm longer_first (pairs ds gs ts))
      ∙ sum-pairs ds gs (λ q. q.1) ts in
    let room : sum_of (λ (q : TestInstance × ℕ). len q.0.id) tds ≡ command_len_of ts =
      sum_of-perm (λ (q : TestInstance × ℕ). len q.0.id)
        (sort_by-perm longer_first (pairs ds gs ts))
      ∙ sum-pairs ds gs (λ q. len q.0.id) ts in
    subst
      (λ x.
        Balanced (min n (length ts)) T x [] 0
          (assign_all (replicate (min n (length ts)) Batch.new) tds))
      (omega (arith, time))
      (assign_all-Balanced (min n (length ts)) T p 0 (replicate (min n (length ts)) Batch.new) tds
        (All-sort_by longer_first (λ q. q.1 ≤ T) (pairs ds gs ts)
          (All-pairs ds gs (λ q. q.1 ≤ T) ts each))
        (omega (arith, time, fits))
        (Distinct-sort_by longer_first (λ q. q.0.id) (pairs ds gs ts) (rw (map-pairs ds gs ts) d))
        (start-Balanced (min n (length ts)) T _ _ (omega (arith, room, c))))

All-both {ℓ κ μ} :
    {A : Type ℓ} (P : A → Type κ) (Q : A → Type μ) (xs : List A)
    → All P xs
    → All Q xs
    → All (λ x. P x × Q x) xs
All-both P Q [] h k = tt
All-both P Q (x ∷ xs) h k = ((h.0, k.0), All-both P Q xs h.1 k.1)

All-scheduled :
    (P : List TestInstance → Type 0) (bs : List Batch)
    → All (λ b. P b.tests) bs
    → All (λ b. P b.tests) (map scheduled bs)
unfolding scheduled
All-scheduled P [] h = tt
All-scheduled P (b ∷ bs) h = (h.0, All-scheduled P bs h.1)

-- Let the ids of the normal tests differ and be at most 30000 bytes together, and let `T` be a time in
-- which some distribution over the batches could run them: no test takes longer than `T`, and all
-- together no longer than `T` for each batch. Then there are no more batches than workers, and each
-- batch takes at most `2 * T`.
pub lpt_queue-le-twice :
    (n : ℕ) (ds gs : Durations) (ts : List TestInstance) (T : ℕ)
    → 0 < n
    → Distinct (ids_of ts)
    → command_len_of ts ≤ max_batch_command_len
    → time_of ds gs ts ≤ min n (length ts) * T
    → All (λ t. duration_of ds gs t ≤ T) ts
    → (length (lpt_queue n ds gs ts) ≤ n)
      × All (λ b. time_of ds gs b.tests ≤ 2 * T) (lpt_queue n ds gs ts)
unfolding lpt_queue
lpt_queue-le-twice n ds gs [] T p d c fits each = (omega arith, tt)
lpt_queue-le-twice n ds gs (t ∷ ts) T p d c fits each =
    let bs = lpt_batches n ds gs (t ∷ ts) in
    let kept = keep (λ b. not (Batch.is_empty b)) (sort_by heavier_first bs) in
    let inv = lpt_batches-Balanced n ds gs (t ∷ ts) T (omega arith) d c fits each in
    (
      omega (
        arith,
        length-map scheduled kept,
        length-keep-le (λ b. not (Batch.is_empty b)) (sort_by heavier_first bs),
        length-perm (sort_by-perm heavier_first bs),
        inv.count,
      ),
      All-scheduled (λ l. time_of ds gs l ≤ 2 * T) kept
          (All-keep (λ b. time_of ds gs b.tests ≤ 2 * T) (λ b. not (Batch.is_empty b)) _
            (All-sort_by heavier_first (λ b. time_of ds gs b.tests ≤ 2 * T) bs
              (All-imp (λ b q. omega (arith, q.0, q.1)) bs
                (All-both (Timed ds gs) (λ b. b.load ≤ 2 * T) bs
                  (lpt_batches-Timed n ds gs (t ∷ ts)) inv.bound)))),
    )
