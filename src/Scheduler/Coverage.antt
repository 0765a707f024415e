-- ===== src/Scheduler/Coverage.antt =====
-- Every test is put into a batch, and none twice: `Scheduler::new` of src/orchestrator/scheduler.rs.
use mathlib.Core.List.{perm_middle}
use mathlib.Core.List.Perm
use offload.Base.{
  ℕ, zero, suc, ◌<◌, min, max, String, ◌≡◌, refl, ap, ◌∙◌, subst, inl, inr, Bool, false, not, some,
  List, [], ◌∷◌, ◌++◌, map, append-nil, append_assoc, Perm, arith, Option-cases, length, replicate,
  keep, length-append, comparable_number, comparable_text, sort_by-perm, flat_map, flat_map-append,
  flat_map-replicate_nil, flat_map-keep, keep-append-perm, flat_map-sort_by-perm,
}
use offload.Framework.{TestInstance}
use offload.Scheduler.Batch
use offload.Scheduler.Batch.{Batch}
use offload.Scheduler.Assign.{Durations, duration_of, target_idx, add_at, assign, assign_all}
use offload.Scheduler.Build.{
  ScheduledBatch, Scheduler, single, scheduled, heavier_first, longer_first, tests_with_duration,
  lpt_batches, lpt_queue, initial_queue,
}
use offload.Scheduler.Build

abbrev tests_of : List Batch → List TestInstance
tests_of = flat_map (λ b. b.tests)

-- The tests in a queue, in the order in which they are handed out.
abbrev pub queued_tests : List ScheduledBatch → List TestInstance
queued_tests = flat_map (λ b. b.tests)

-- The index that is found is one of the list.
pub target_idx-lt-length :
    (test_id : String) (bs : List Batch) (idx load : ℕ)
    → target_idx test_id bs ≡ some (idx, load)
    → idx < length bs
unfolding target_idx
target_idx-lt-length k [] idx load h = cc
target_idx-lt-length k (b ∷ bs) idx load h = elim (Option-cases (target_idx k bs)) [
  | inl e ↦ ground (arith, e)
  | inr (p, e) ↦ ground (arith, e, target_idx-lt-length k bs p.0 p.1)
]

add_at-perm :
    (bs : List Batch) (idx : ℕ) (t : TestInstance) (d : ℕ)
    → idx < length bs
    → Perm (tests_of (add_at bs idx t d)) (t ∷ tests_of bs)
unfolding add_at
add_at-perm [] idx t d h = absurd (omega arith)
add_at-perm (b ∷ bs) zero t d h =
    rw (append_assoc b.tests (t ∷ []) (tests_of bs)) (perm_middle b.tests (tests_of bs))
add_at-perm (b ∷ bs) (suc idx) t d h =
    Perm.trans (Perm.append_left b.tests (add_at-perm bs idx t d (omega arith)))
      (perm_middle b.tests (tests_of bs))

assign-perm :
    (bs : List Batch) (t : TestInstance) (d : ℕ) → Perm (tests_of (assign bs t d)) (t ∷ tests_of bs)
unfolding assign Batch.new
assign-perm bs t d = elim (Option-cases (target_idx t.id bs)) [
  | inr ((idx, load), e) ↦
      rw (e, assign) (add_at-perm bs idx t d (target_idx-lt-length t.id bs idx load e))
  | inl e ↦
      rw (e, assign)
        (subst (λ l. Perm (tests_of (add_at (bs ++ Batch.new ∷ []) (length bs) t d)) (t ∷ l))
          (flat_map-append (λ b. b.tests) bs (Batch.new ∷ []) ∙ append-nil (tests_of bs))
          (add_at-perm (bs ++ Batch.new ∷ []) (length bs) t d
            (omega (arith, length-append bs (Batch.new ∷ [])))))
]

assign_all-perm :
    (bs : List Batch) (tds : List (TestInstance × ℕ))
    → Perm (tests_of (assign_all bs tds)) (map (λ p. p.0) tds ++ tests_of bs)
unfolding assign_all
assign_all-perm bs [] = Perm.rfl
assign_all-perm bs ((t, d) ∷ rest) = Perm.trans (assign_all-perm (assign bs t d) rest) (
    Perm.trans (Perm.append_left (map (λ p. p.0) rest) (assign-perm bs t d))
      (perm_middle (map (λ p. p.0) rest) (tests_of bs)))

map_fst-with_duration :
    (ds gs : Durations) (ts : List TestInstance)
    → map (λ (p : TestInstance × ℕ). p.0) (map (λ t. (t, duration_of ds gs t)) ts) ≡ ts
map_fst-with_duration ds gs [] = refl
map_fst-with_duration ds gs (t ∷ ts) = ap (◌∷◌ t) (map_fst-with_duration ds gs ts)

lpt_batches-perm :
    (n : ℕ) (ds gs : Durations) (ts : List TestInstance)
    → Perm (tests_of (lpt_batches n ds gs ts)) ts
unfolding lpt_batches tests_with_duration Batch.new
lpt_batches-perm n ds gs ts =
    Perm.trans
      (assign_all-perm (replicate (min n (length ts)) Batch.new) (tests_with_duration ds gs ts))
      (rw (flat_map-replicate_nil (λ b. b.tests) (min n (length ts)) Batch.new refl, append-nil)
        (subst (λ l. Perm (map (λ p. p.0) (tests_with_duration ds gs ts)) l)
          (map_fst-with_duration ds gs ts)
          (Perm.map (λ p. p.0)
            (sort_by-perm longer_first (map (λ t. (t, duration_of ds gs t)) ts)))))

queued-single : (ts : List TestInstance) → queued_tests (map single ts) ≡ ts
unfolding single
queued-single [] = refl
queued-single (t ∷ ts) = ap (◌∷◌ t) (queued-single ts)

queued-scheduled : (bs : List Batch) → queued_tests (map scheduled bs) ≡ tests_of bs
unfolding scheduled
queued-scheduled [] = refl
queued-scheduled (b ∷ bs) = ap (◌++◌ b.tests) (queued-scheduled bs)

tests-is_empty : (b : Batch) → not (Batch.is_empty b) ≡ false → b.tests ≡ []
unfolding Batch.is_empty
tests-is_empty b h = ground arith

lpt_queue-perm :
    (n : ℕ) (ds gs : Durations) (ts : List TestInstance)
    → Perm (queued_tests (lpt_queue n ds gs ts)) ts
unfolding lpt_queue
lpt_queue-perm n ds gs [] = Perm.rfl
lpt_queue-perm n ds gs (t ∷ ts) =
    rw
      (
        queued-scheduled _,
        flat_map-keep (λ b. b.tests) (λ b. not (Batch.is_empty b)) _ tests-is_empty,
      )
      (Perm.trans
        (flat_map-sort_by-perm heavier_first (λ b. b.tests) (lpt_batches n ds gs (t ∷ ts)))
        (lpt_batches-perm n ds gs (t ∷ ts)))

initial_queue-perm :
    (n : ℕ) (ts : List TestInstance) (ds gs : Durations)
    → Perm (queued_tests (initial_queue n ts ds gs)) ts
unfolding initial_queue
initial_queue-perm n ts ds gs =
    rw
      (
        flat_map-append (λ b. b.tests) (map single (keep (λ t. t.schedule_individual) ts)) _,
        queued-single _,
      )
      (Perm.trans
        (Perm.append_left _
          (lpt_queue-perm (max n 1) ds gs (keep (λ t. not t.schedule_individual) ts)))
        (keep-append-perm (λ t. t.schedule_individual) ts))

-- The batches of a new scheduler hold exactly the given tests, each as often as it is given, whatever
-- the parallelism and the durations are.
pub queue-new-perm :
    (n : ℕ) (ts : List TestInstance) (ds gs : Durations) (requeue : Bool)
    → Perm (queued_tests (Build.new n ts ds gs requeue).queue) ts
unfolding Build.new
queue-new-perm n [] ds gs requeue = Perm.rfl
queue-new-perm n (t ∷ ts) ds gs requeue = initial_queue-perm n (t ∷ ts) ds gs
