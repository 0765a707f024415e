-- ===== src/Scheduler/Limits.antt =====
-- What each batch of a new scheduler satisfies: `Scheduler::new` of src/orchestrator/scheduler.rs.
use Prim.Native.String.{len}
use offload.Base.{
  ℕ, zero, suc, ◌≤◌, ◌<◌, min, max, String, ◌≡◌, refl, ap, ◌⊎◌, inl, inr, Bool, true, false, not,
  ◌||◌, some, List, [], ◌∷◌, ◌++◌, map, arith, Bool-cases, Option-cases, length, replicate, keep,
  sum_of, All, length-append, sum_of-append, All-append, All-replicate, All-imp, All-keep_self,
  comparable_number, comparable_text, contains, Distinct, contains-add, All-sort_by,
}
use offload.Framework.{TestInstance}
use offload.Scheduler.Batch
use offload.Scheduler.Batch.{Batch, max_batch_command_len}
use offload.Scheduler.Assign.{
  Durations, duration_of, eligible, target_idx, add_at, assign, assign_all,
}
use offload.Scheduler.Build.{
  ScheduledBatch, Scheduler, single, scheduled, heavier_first, longer_first, tests_with_duration,
  lpt_batches, lpt_queue, initial_queue,
}
use offload.Scheduler.Build

abbrev pub ids_of : List TestInstance → List String
ids_of ts = map (λ t. t.id) ts

abbrev pub command_len_of : List TestInstance → ℕ
command_len_of = sum_of (λ t. len t.id)

abbrev pub IsNormal : TestInstance → Type 0
IsNormal t = t.schedule_individual ≡ false

contains-append :
    (k : String) (xs ys : List String) → contains k (xs ++ ys) ≡ (contains k xs || contains k ys)
unfolding contains
contains-append k [] ys = refl
contains-append k (x ∷ xs) ys = ground (arith, contains-append k xs ys)

Distinct-append_self :
    (k : String) (xs : List String) → contains k xs ≡ false → Distinct xs → Distinct (xs ++ k ∷ [])
unfolding contains
Distinct-append_self k [] h d = (refl, tt)
Distinct-append_self k (x ∷ xs) h d = (
  ground (
    arith,
    contains-append x xs (k ∷ []),
    comparable_text.same_iff k x,
    comparable_text.same_iff x k,
  ),
  Distinct-append_self k xs (ground arith) d.1,
)

-- The bookkeeping of a batch is that of its tests, and its tests respect the limits.
pub record IsSound (b : Batch) : Type 0 where
  pub ids : (k : String) → contains k b.test_ids ≡ contains k (ids_of b.tests)
  pub distinct : Distinct (ids_of b.tests)
  pub command : b.command_len ≡ command_len_of b.tests
  pub normal : All IsNormal b.tests
  pub fits : (length b.tests ≤ 1) ⊎ (b.command_len ≤ max_batch_command_len)

new-IsSound : IsSound Batch.new
unfolding Batch.new contains
new-IsSound = record {
  ids = λ k. refl;
  distinct = tt;
  command = refl;
  normal = tt;
  fits = inl (omega arith);
}

eligible-new : (k : String) → eligible k Batch.new ≡ true
unfolding eligible Batch.new contains
eligible-new k = refl

ids_of-append :
    (ts : List TestInstance) (t : TestInstance) → ids_of (ts ++ t ∷ []) ≡ ids_of ts ++ t.id ∷ []
ids_of-append [] t = refl
ids_of-append (s ∷ ts) t = ap (◌∷◌ s.id) (ids_of-append ts t)

add_test-IsSound :
    (b : Batch) (t : TestInstance) (d : ℕ)
    → eligible t.id b ≡ true
    → IsNormal t
    → IsSound b
    → IsSound (Batch.add_test b t d)
unfolding Batch.add_test eligible
add_test-IsSound b t d e n h = record {
  ids = λ k.
      rw
        (
          contains-add t.id k b.test_ids,
          ids_of-append b.tests t,
          contains-append k (ids_of b.tests) (t.id ∷ []),
        )
        (unfold contains in ground (arith, h.ids k));
  distinct =
      rw (ids_of-append b.tests t)
        (Distinct-append_self t.id (ids_of b.tests) (ground (arith, h.ids t.id)) h.distinct);
  command =
      omega (arith, h.command, sum_of-append (λ (t : TestInstance). len t.id) b.tests (t ∷ []));
  normal = All-append IsNormal b.tests (t ∷ []) h.normal (n, tt);
  fits = ground (arith, length-append b.tests (t ∷ []));
}

target_idx-zero :
    (k : String) (b : Batch) (bs : List Batch) (load : ℕ)
    → target_idx k (b ∷ bs) ≡ some (0, load)
    → (eligible k b ≡ true) × (b.load ≡ load)
unfolding target_idx
target_idx-zero k b bs load e = elim (Option-cases (target_idx k bs)) [
  | inl n ↦ ground (arith, n)
  | inr (p, n) ↦ ground (arith, n)
]

target_idx-suc :
    (k : String) (b : Batch) (bs : List Batch) (idx load : ℕ)
    → target_idx k (b ∷ bs) ≡ some (suc idx, load)
    → target_idx k bs ≡ some (idx, load)
unfolding target_idx
target_idx-suc k b bs idx load e = elim (Option-cases (target_idx k bs)) [
  | inl n ↦ ground (arith, n)
  | inr (p, n) ↦ ground (arith, n)
]

-- The batch that is found is eligible and has the load that is found; the others stay.
pub All-add_at {ℓ κ} :
    (P : Batch → Type ℓ) (Q : Batch → Type κ) (t : TestInstance) (d : ℕ) (bs : List Batch)
    (idx load : ℕ)
    → target_idx t.id bs ≡ some (idx, load)
    → ((b : Batch) → P b → Q b)
    → ((b : Batch) → eligible t.id b ≡ true → b.load ≡ load → P b → Q (Batch.add_test b t d))
    → All P bs
    → All Q (add_at bs idx t d)
unfolding add_at
All-add_at P Q t d [] idx load e stay taken h = tt
All-add_at P Q t d (b ∷ bs) zero load e stay taken h =
    let found = target_idx-zero t.id b bs load e in
    (taken b found.0 found.1 h.0, All-imp stay bs h.1)
All-add_at P Q t d (b ∷ bs) (suc idx) load e stay taken h = (
  stay b h.0,
  All-add_at P Q t d bs idx load (target_idx-suc t.id b bs idx load e) stay taken h.1,
)

-- The batch that is pushed last is the one that takes the test.
pub add_at-length :
    (bs : List Batch) (b : Batch) (t : TestInstance) (d : ℕ)
    → add_at (bs ++ b ∷ []) (length bs) t d ≡ bs ++ Batch.add_test b t d ∷ []
unfolding add_at
add_at-length [] b t d = refl
add_at-length (c ∷ bs) b t d = ap (◌∷◌ c) (add_at-length bs b t d)

assign-IsSound :
    (bs : List Batch) (t : TestInstance) (d : ℕ)
    → IsNormal t
    → All IsSound bs
    → All IsSound (assign bs t d)
unfolding assign
assign-IsSound bs t d n h = elim (Option-cases (target_idx t.id bs)) [
  | inr ((idx, load), e) ↦
      rw (e, assign)
        (All-add_at IsSound IsSound t d bs idx load e (λ b s. s)
          (λ b el _ s. add_test-IsSound b t d el n s) h)
  | inl e ↦
      rw (e, assign)
        (rw (add_at-length bs Batch.new t d) (
          All-append IsSound bs (Batch.add_test Batch.new t d ∷ []) h
            (add_test-IsSound Batch.new t d (eligible-new t.id) n new-IsSound, tt)))
]

assign_all-IsSound :
    (bs : List Batch) (tds : List (TestInstance × ℕ))
    → All (λ p. IsNormal p.0) tds
    → All IsSound bs
    → All IsSound (assign_all bs tds)
unfolding assign_all
assign_all-IsSound bs [] n h = h
assign_all-IsSound bs ((t, d) ∷ rest) n h =
    assign_all-IsSound (assign bs t d) rest n.1 (assign-IsSound bs t d n.0 h)

All-with_duration {ℓ} :
    (P : TestInstance → Type ℓ) (ds gs : Durations) (ts : List TestInstance)
    → All P ts
    → All (λ (p : TestInstance × ℕ). P p.0) (map (λ t. (t, duration_of ds gs t)) ts)
All-with_duration P ds gs [] h = tt
All-with_duration P ds gs (t ∷ ts) h = (h.0, All-with_duration P ds gs ts h.1)

lpt_batches-IsSound :
    (n : ℕ) (ds gs : Durations) (ts : List TestInstance)
    → All IsNormal ts
    → All IsSound (lpt_batches n ds gs ts)
unfolding lpt_batches tests_with_duration
lpt_batches-IsSound n ds gs ts h =
    assign_all-IsSound (replicate (min n (length ts)) Batch.new) (tests_with_duration ds gs ts)
      (All-sort_by longer_first (λ p. IsNormal p.0) (map (λ t. (t, duration_of ds gs t)) ts)
        (All-with_duration IsNormal ds gs ts h))
      (All-replicate IsSound (min n (length ts)) Batch.new new-IsSound)

-- A batch that a worker may run: one test alone, or different normal tests with a short command.
pub record IsRunnable (b : ScheduledBatch) : Type 0 where
  pub fresh : b.single_test_retry_counter ≡ 0
  pub some_test : 0 < length b.tests
  pub alone_or_short :
      (length b.tests ≡ 1)
      ⊎ (All IsNormal b.tests
          × Distinct (ids_of b.tests)
          × (command_len_of b.tests ≤ max_batch_command_len))

length-not_empty : (b : Batch) → Batch.is_empty b ≡ false → 0 < length b.tests
unfolding Batch.is_empty
length-not_empty b h = grind arith

scheduled-IsRunnable : (b : Batch) → Batch.is_empty b ≡ false → IsSound b → IsRunnable (scheduled b)
unfolding scheduled
scheduled-IsRunnable b e h = record {
  fresh = refl;
  some_test = length-not_empty b e;
  alone_or_short = elim h.fits [
    | inl one ↦ inl (omega (arith, length-not_empty b e))
    | inr short ↦ inr (h.normal, h.distinct, omega (arith, h.command))
  ];
}

All-scheduled :
    (bs : List Batch)
    → All IsSound bs
    → All IsRunnable (map scheduled (keep (λ b. not (Batch.is_empty b)) bs))
All-scheduled [] h = tt
All-scheduled (b ∷ bs) h = elim (Bool-cases (Batch.is_empty b)) [
  | inl e ↦ rw e (All-scheduled bs h.1)
  | inr e ↦ rw e (scheduled-IsRunnable b e h.0, All-scheduled bs h.1)
]

lpt_queue-IsRunnable :
    (n : ℕ) (ds gs : Durations) (ts : List TestInstance)
    → All IsNormal ts
    → All IsRunnable (lpt_queue n ds gs ts)
unfolding lpt_queue
lpt_queue-IsRunnable n ds gs [] h = tt
lpt_queue-IsRunnable n ds gs (t ∷ ts) h = All-scheduled _ (
    All-sort_by heavier_first IsSound (lpt_batches n ds gs (t ∷ ts))
      (lpt_batches-IsSound n ds gs (t ∷ ts) h))

single-IsRunnable : (ts : List TestInstance) → All IsRunnable (map single ts)
unfolding single
single-IsRunnable [] = tt
single-IsRunnable (t ∷ ts) = (
  record { fresh = refl; some_test = omega arith; alone_or_short = inl refl },
  single-IsRunnable ts,
)

not-true : (b : Bool) → not b ≡ true → b ≡ false
not-true b h = ground arith

-- Each batch of a new scheduler has a test, and either it has one test, or none of its tests asked to
-- be scheduled individually, no test id occurs twice in it, and its test ids together are at most
-- 30000 bytes long. So the retry counters start at 0.
pub queue-new-IsRunnable :
    (n : ℕ) (ts : List TestInstance) (ds gs : Durations) (requeue : Bool)
    → All IsRunnable (Build.new n ts ds gs requeue).queue
unfolding Build.new initial_queue
queue-new-IsRunnable n [] ds gs requeue = tt
queue-new-IsRunnable n (t ∷ ts) ds gs requeue =
    All-append IsRunnable (map single (keep (λ s. s.schedule_individual) (t ∷ ts))) _
      (single-IsRunnable _)
      (lpt_queue-IsRunnable (max n 1) ds gs (keep (λ s. not s.schedule_individual) (t ∷ ts)) (
        All-imp (λ s. not-true s.schedule_individual) _
          (All-keep_self (λ s. not s.schedule_individual) (t ∷ ts))))
