-- ===== src/Scheduler/Makespan.antt =====
-- The assignment of src/orchestrator/scheduler.rs is within a factor of two of every other one.
use Prim.Native.String.{len}
use native.Mathlib.Nat.{le_trans, add-zero, add_assoc}
use native.Mathlib.Decide.{dec_lt}
use offload.Base.{
  ℕ, zero, suc, ◌+◌, ◌*◌, ◌≤◌, ◌<◌, String, ◌≡◌, refl, ap, ◌∙◌, ◌≢◌, inl, inr, true, false, none,
  some, List, [], ◌∷◌, map, arith, Option-cases, length, replicate, sum_of, All, All-imp,
  comparable_number, comparable_text, eq_self, contains, Distinct, contains-add,
}
use offload.Framework.{TestInstance}
use offload.Scheduler.Batch
use offload.Scheduler.Batch.{Batch, max_batch_command_len}
use offload.Scheduler.Assign.{eligible, target_idx, add_at, assign, assign_all}
use offload.Scheduler.Limits.{All-add_at}

-- What the batches and the tests still to come have in common: no test is in a batch already, and the
-- batches are short.
pub record Roomy (ids : List String) (room : ℕ) (b : Batch) : Type 0 where
  pub apart : (k : String) → contains k ids ≡ true → contains k b.test_ids ≡ false
  pub short : b.command_len + room ≤ max_batch_command_len

Roomy-eligible :
    (k : String) (ids : List String) (room : ℕ) (b : Batch)
    → Roomy (k ∷ ids) (len k + room) b
    → eligible k b ≡ true
unfolding eligible contains
Roomy-eligible k ids room b h = ground (arith, h.apart k, eq_self k, h.short)

Roomy-tail :
    (k : String) (ids : List String) (room : ℕ) (b : Batch)
    → Roomy (k ∷ ids) (len k + room) b
    → Roomy ids room b
unfolding contains
Roomy-tail k ids room b h = record {
  apart = λ j e. ground (arith, h.apart j);
  short = omega (arith, h.short);
}

Roomy-add_test :
    (t : TestInstance) (d : ℕ) (ids : List String) (room : ℕ) (b : Batch)
    → contains t.id ids ≡ false
    → Roomy (t.id ∷ ids) (len t.id + room) b
    → Roomy ids room (Batch.add_test b t d)
unfolding Batch.add_test contains
Roomy-add_test t d ids room b n h = record {
  apart = λ j e.
      ground (arith, h.apart j, contains-add t.id j b.test_ids, comparable_text.same_iff j t.id);
  short = omega (arith, h.short);
}

target_idx-some :
    (k : String) (b : Batch) (bs : List Batch) → eligible k b ≡ true → target_idx k (b ∷ bs) ≢ none
unfolding target_idx
target_idx-some k b bs h = ground arith

target_idx-cons :
    (k : String) (b : Batch) (bs : List Batch) (idx load j other : ℕ)
    → target_idx k bs ≡ some (j, other)
    → target_idx k (b ∷ bs) ≡ some (idx, load)
    → eligible k b ≡ true
    → (load ≤ b.load) × (load ≤ other)
unfolding target_idx
target_idx-cons k b bs idx load j other n e h = ground (arith, n)

-- With all batches eligible the one that is found is a lightest one.
target_idx-le :
    (k : String) (bs : List Batch) (idx load : ℕ)
    → All (λ b. eligible k b ≡ true) bs
    → target_idx k bs ≡ some (idx, load)
    → All (λ b. load ≤ b.load) bs
target_idx-le k [] idx load h e = tt
target_idx-le k (b ∷ []) idx load h e = unfold target_idx in (ground (arith, h.0), tt)
target_idx-le k (b ∷ c ∷ bs) idx load h e = elim (Option-cases (target_idx k (c ∷ bs))) [
  | inl n ↦ absurd (target_idx-some k c bs h.1.0 n)
  | inr ((j, other), n) ↦
      let m = target_idx-cons k b (c ∷ bs) idx load j other n e h.0 in
      (m.0, All-imp (λ x l. le_trans m.1 l) (c ∷ bs) (target_idx-le k (c ∷ bs) j other h.1 n))
]

pub load_sum : List Batch → ℕ
load_sum bs = sum_of (λ b. b.load) bs

pub load_sum-replicate : (m : ℕ) → load_sum (replicate m Batch.new) ≡ 0
unfolding load_sum Batch.new
load_sum-replicate zero = refl
load_sum-replicate (suc m) = omega (arith, load_sum-replicate m)

length-mul-le :
    (load : ℕ) (bs : List Batch) → All (λ b. load ≤ b.load) bs → length bs * load ≤ load_sum bs
unfolding load_sum
length-mul-le load [] h = omega arith
length-mul-le load (b ∷ bs) h = omega (arith, length-mul-le load bs h.1, h.0)

load_sum-add_at :
    (bs : List Batch) (idx : ℕ) (t : TestInstance) (d : ℕ)
    → load_sum (add_at bs idx t d) ≤ load_sum bs + d
unfolding load_sum add_at Batch.add_test
load_sum-add_at [] idx t d = omega arith
load_sum-add_at (b ∷ bs) zero t d = omega arith
load_sum-add_at (b ∷ bs) (suc idx) t d = omega (arith, load_sum-add_at bs idx t d)

length-add_at :
    (bs : List Batch) (idx : ℕ) (t : TestInstance) (d : ℕ) → length (add_at bs idx t d) ≡ length bs
unfolding add_at
length-add_at [] idx t d = refl
length-add_at (b ∷ bs) zero t d = refl
length-add_at (b ∷ bs) (suc idx) t d = ap suc (length-add_at bs idx t d)

-- The invariant of the loop. `m` batches, `T` a time in which they can all be run, `done` the
-- durations already assigned.
pub record Balanced (m T done : ℕ) (ids : List String) (room : ℕ) (bs : List Batch) : Type 0 where
  pub count : length bs ≡ m
  pub roomy : All (Roomy ids room) bs
  pub total : load_sum bs ≤ done
  pub bound : All (λ b. b.load ≤ 2 * T) bs

le_of_mul : (m load T : ℕ) → 0 < m → m * load ≤ m * T → load ≤ T
le_of_mul m load T p h = elim (dec_lt T load) [ yes q ↦ absurd (grind arith) | no q ↦ omega arith ]

target_idx-not_none :
    (k : String) (bs : List Batch)
    → 0 < length bs
    → All (λ b. eligible k b ≡ true) bs
    → target_idx k bs ≢ none
target_idx-not_none k [] p h = absurd (omega arith)
target_idx-not_none k (b ∷ bs) p h = target_idx-some k b bs h.0

module _ (m T : ℕ) (some_batch : 0 < m) where
  add_at-Balanced :
      (done : ℕ) (bs : List Batch) (t : TestInstance) (d : ℕ) (ids : List String)
      (room idx load : ℕ)
      → d ≤ T
      → done + d ≤ m * T
      → contains t.id ids ≡ false
      → Balanced m T done (t.id ∷ ids) (len t.id + room) bs
      → All (λ b. eligible t.id b ≡ true) bs
      → target_idx t.id bs ≡ some (idx, load)
      → Balanced m T (done + d) ids room (add_at bs idx t d)
  add_at-Balanced done bs t d ids room idx load dT fits new h el e =
      let light = length-mul-le load bs (target_idx-le t.id bs idx load el e) in
      let light' : m * load ≤ load_sum bs = rw h.count at light in
      let below = le_of_mul m load T some_batch (omega (arith, light', h.total, fits)) in
      record {
        count = length-add_at bs idx t d ∙ h.count;
        roomy =
            All-add_at (Roomy (t.id ∷ ids) (len t.id + room)) (Roomy ids room) t d bs idx load e
              (Roomy-tail t.id ids room) (λ b _ _ r. Roomy-add_test t d ids room b new r) h.roomy;
        total = omega (arith, load_sum-add_at bs idx t d, h.total);
        bound =
            All-add_at (λ b. b.load ≤ 2 * T) (λ b. b.load ≤ 2 * T) t d bs idx load e (λ b r. r)
              (λ b _ l _. unfold Batch.add_test in omega (arith, l, below)) h.bound;
      }

  assign-Balanced :
      (done : ℕ) (bs : List Batch) (t : TestInstance) (d : ℕ) (ids : List String) (room : ℕ)
      → d ≤ T
      → done + d ≤ m * T
      → contains t.id ids ≡ false
      → Balanced m T done (t.id ∷ ids) (len t.id + room) bs
      → Balanced m T (done + d) ids room (assign bs t d)
  unfolding assign
  assign-Balanced done bs t d ids room dT fits new h =
      let el = All-imp (Roomy-eligible t.id ids room) bs h.roomy in
      elim (Option-cases (target_idx t.id bs)) [
        | inl e ↦ absurd (target_idx-not_none t.id bs (omega (arith, h.count)) el e)
        | inr ((idx, load), e) ↦
            rw (e, assign) (add_at-Balanced done bs t d ids room idx load dT fits new h el e)
      ]

  pub assign_all-Balanced :
      (done : ℕ) (bs : List Batch) (tds : List (TestInstance × ℕ))
      → All (λ p. p.1 ≤ T) tds
      → done + sum_of (λ p. p.1) tds ≤ m * T
      → Distinct (map (λ p. p.0.id) tds)
      → Balanced m T done (map (λ p. p.0.id) tds) (sum_of (λ p. len p.0.id) tds) bs
      → Balanced m T (done + sum_of (λ p. p.1) tds) [] 0 (assign_all bs tds)
  unfolding assign_all
  assign_all-Balanced done bs [] dT fits new h = rw (add-zero done) h
  assign_all-Balanced done bs ((t, d) ∷ rest) dT fits new h =
      rw (← add_assoc done d (sum_of (λ (p : TestInstance × ℕ). p.1) rest)) (
        assign_all-Balanced (done + d) (assign bs t d) rest dT.1 (omega (arith, fits)) new.1
          (assign-Balanced done bs t d _ _ dT.0 (omega (arith, fits)) new.0 h))
