-- ===== src/Workers/Conserved.antt =====
-- The sandboxes, the numbers of batches and the two flags in a run of src/orchestrator/spawn.rs.
use offload.Base.{
  ℕ, zero, suc, ◌+◌, ◌≤◌, max, ◌≡◌, refl, sym, subst, ◌⊎◌, inl, inr, Bool, false, not, ◌&&◌, List,
  [], ◌∷◌, ◌++◌, arith, Bool-cases, replicate, sum_of, All, sum_of-append, All-replicate, All-imp,
  comparable_number, comparable_text,
}
use offload.Scheduler.Build.{Scheduler}
use offload.Completion.{CompletionTracker}
use offload.Workers.{
  Phase, idle, numbered, admitted, running, finished, updating, completing, done, Shared, give_back,
  is_failure, handle_outcome, mark_complete, cancel_run, WorkerStep, take_batch, leave, number,
  exit_early, admit, skip, start, run_recorded, run_unrecorded, handle, next_round, complete,
  cancel_all, Run, Step, one_step, Reaches, here, next, start_run,
}

-- A worker that still has its sandbox.
abbrev pub holds_sandbox : Phase → ℕ
holds_sandbox done = 0
holds_sandbox _ = 1

-- The round that a worker is in has the number of its batch.
abbrev pub number_of : Phase → ℕ
number_of (numbered idx batch) = suc idx
number_of (admitted idx batch) = suc idx
number_of (running idx batch) = suc idx
number_of (finished idx outcome) = suc idx
number_of (updating idx) = suc idx
number_of (completing idx) = suc idx
number_of _ = 0

-- A worker that has marked the run as complete and is about to cancel it.
abbrev pub is_cancelling : Phase → ℕ
is_cancelling (completing idx) = 1
is_cancelling _ = 0

abbrev pub AreInStep : Shared → Type 0
AreInStep s = (s.all_complete && not s.is_cancelled) ≡ false

-- A run with `n` sandboxes: each is with a worker or given back, no batch has a number that was not given
-- out, and a run that is complete is cancelled or about to be.
pub record IsConsistent (n : ℕ) (r : Run) : Type 0 where
  pub sandboxes : r.shared.sandboxes_for_cleanup + sum_of holds_sandbox r.workers ≡ n
  pub numbers : All (λ p. number_of p ≤ r.shared.batch_counter) r.workers
  pub flags : AreInStep r.shared ⊎ (1 ≤ sum_of is_cancelling r.workers)

record Conserves (s : Shared) (p : Phase) (t : Shared) (q : Phase) : Type 0 where
  sandboxes : s.sandboxes_for_cleanup + holds_sandbox p ≡ t.sandboxes_for_cleanup + holds_sandbox q
  counter : s.batch_counter ≤ t.batch_counter
  numbers : number_of q ≤ max (number_of p) t.batch_counter
  flags : AreInStep s → AreInStep t ⊎ (1 ≤ is_cancelling q)
  cancels : 1 ≤ is_cancelling p → AreInStep t

WorkerStep-Conserves :
    {f : Bool} {s t : Shared} {p q : Phase} → WorkerStep f s p t q → Conserves s p t q
unfolding give_back handle_outcome mark_complete cancel_run
WorkerStep-Conserves (take_batch s batch scheduler e) = record {
  sandboxes = refl;
  counter = omega arith;
  numbers = omega arith;
  flags = λ h. inl h;
  cancels = λ h. absurd (omega (arith, h));
}
WorkerStep-Conserves (leave s e) = record {
  sandboxes = omega arith;
  counter = omega arith;
  numbers = omega arith;
  flags = λ h. inl h;
  cancels = λ h. absurd (omega (arith, h));
}
WorkerStep-Conserves (number s batch) = record {
  sandboxes = refl;
  counter = omega arith;
  numbers = omega arith;
  flags = λ h. inl h;
  cancels = λ h. absurd (omega (arith, h));
}
WorkerStep-Conserves (exit_early s idx batch e) = record {
  sandboxes = omega arith;
  counter = omega arith;
  numbers = omega arith;
  flags = λ h. inl h;
  cancels = λ h. absurd (omega (arith, h));
}
WorkerStep-Conserves (admit s idx batch e) = record {
  sandboxes = refl;
  counter = omega arith;
  numbers = omega arith;
  flags = λ h. inl h;
  cancels = λ h. absurd (omega (arith, h));
}
WorkerStep-Conserves (skip s idx batch e) = record {
  sandboxes = refl;
  counter = omega arith;
  numbers = omega arith;
  flags = λ h. inl h;
  cancels = λ h. absurd (omega (arith, h));
}
WorkerStep-Conserves (start s idx batch e) = record {
  sandboxes = refl;
  counter = omega arith;
  numbers = omega arith;
  flags = λ h. inl h;
  cancels = λ h. absurd (omega (arith, h));
}
WorkerStep-Conserves (run_recorded s idx batch p outcome) = record {
  sandboxes = refl;
  counter = omega arith;
  numbers = omega arith;
  flags = λ h. inl h;
  cancels = λ h. absurd (omega (arith, h));
}
WorkerStep-Conserves (run_unrecorded s idx batch outcome) = record {
  sandboxes = refl;
  counter = omega arith;
  numbers = omega arith;
  flags = λ h. inl h;
  cancels = λ h. absurd (omega (arith, h));
}
WorkerStep-Conserves {f} (handle s idx outcome) = elim (Bool-cases (f && is_failure outcome)) [
  | inl e ↦ rw e (record {
    sandboxes = refl;
    counter = omega arith;
    numbers = omega arith;
    flags = λ h. inl (ground arith);
    cancels = λ h. absurd (omega (arith, h));
  })
  | inr e ↦ rw e (record {
    sandboxes = refl;
    counter = omega arith;
    numbers = omega arith;
    flags = λ h. inl h;
    cancels = λ h. absurd (omega (arith, h));
  })
]
WorkerStep-Conserves (next_round s idx e) = record {
  sandboxes = refl;
  counter = omega arith;
  numbers = omega arith;
  flags = λ h. inl h;
  cancels = λ h. absurd (omega (arith, h));
}
WorkerStep-Conserves (complete s idx e) = record {
  sandboxes = refl;
  counter = omega arith;
  numbers = omega arith;
  flags = λ h. inr (omega arith);
  cancels = λ h. absurd (omega (arith, h));
}
WorkerStep-Conserves (cancel_all s idx) = record {
  sandboxes = refl;
  counter = omega arith;
  numbers = omega arith;
  flags = λ h. inl (ground arith);
  cancels = λ h. ground arith;
}

-- One element of a list, and its replacement.
pub All-at {κ} : {A : Type 0} (P : A → Type κ) (xs ys : List A) (y : A) → All P (xs ++ y ∷ ys) → P y
All-at P [] ys y h = h.0
All-at P (x ∷ xs) ys y h = All-at P xs ys y h.1

pub All-replaced {κ} :
    {A : Type 0} (P Q : A → Type κ) (xs ys : List A) (y z : A)
    → ((x : A) → P x → Q x)
    → Q z
    → All P (xs ++ y ∷ ys)
    → All Q (xs ++ z ∷ ys)
All-replaced P Q [] ys y z f q h = (q, All-imp f ys h.1)
All-replaced P Q (x ∷ xs) ys y z f q h = (f x h.0, All-replaced P Q xs ys y z f q h.1)

flags-step :
    {s t : Shared} {p q : Phase} (n : ℕ)
    → Conserves s p t q
    → AreInStep s ⊎ (1 ≤ n + is_cancelling p)
    → AreInStep t ⊎ (1 ≤ n + is_cancelling q)
flags-step n k (inl h) = elim (k.flags h) [ inl e ↦ inl e | inr c ↦ inr (omega (arith, c)) ]
flags-step zero k (inr h) = inl (k.cancels (omega (arith, h)))
flags-step (suc n) k (inr h) = inr (omega arith)

count_at :
    (before after : List Phase) (p : Phase)
    → sum_of is_cancelling (before ++ p ∷ after)
      ≡ sum_of is_cancelling before + sum_of is_cancelling after + is_cancelling p
count_at before after p = omega (arith, sum_of-append is_cancelling before (p ∷ after))

Step-IsConsistent :
    {f : Bool} {n : ℕ} {r u : Run} → Step f r u → IsConsistent n r → IsConsistent n u
Step-IsConsistent (one_step before after {s} {t} {p} {q} w) h =
    let k = WorkerStep-Conserves w in
    record {
      sandboxes = omega (
        arith,
        h.sandboxes,
        k.sandboxes,
        sum_of-append holds_sandbox before (p ∷ after),
        sum_of-append holds_sandbox before (q ∷ after),
      );
      numbers =
          All-replaced (λ x. number_of x ≤ s.batch_counter) (λ x. number_of x ≤ t.batch_counter)
            before after p q (λ x i. omega (arith, i, k.counter))
            (omega (
              arith,
              k.numbers,
              k.counter,
              All-at (λ x. number_of x ≤ s.batch_counter) before after p h.numbers,
            ))
            h.numbers;
      flags =
          subst (λ c. AreInStep t ⊎ (1 ≤ c)) (sym (count_at before after q))
            (flags-step (sum_of is_cancelling before + sum_of is_cancelling after) k
              (subst (λ c. AreInStep s ⊎ (1 ≤ c)) (count_at before after p) h.flags));
    }

all_idle : (n : ℕ) → 0 + sum_of holds_sandbox (replicate n idle) ≡ n
all_idle zero = omega arith
all_idle (suc n) = omega (arith, all_idle n)

start_run-IsConsistent :
    (scheduler : Scheduler) (tracker : CompletionTracker) (n : ℕ)
    → IsConsistent n (start_run scheduler tracker n)
unfolding start_run
start_run-IsConsistent scheduler tracker n = record {
  sandboxes = all_idle n;
  numbers = All-replicate (λ p. number_of p ≤ 0) n idle (omega arith);
  flags = inl refl;
}

-- In every run that the workers can reach from its start, however their steps interleave, each sandbox is
-- with exactly one worker or given back once, the numbers of batches in work were given out, and a run
-- that is complete is cancelled, or a worker is just about to cancel it.
pub Reaches-IsConsistent :
    (f : Bool) (scheduler : Scheduler) (tracker : CompletionTracker) (n : ℕ) (r : Run)
    → Reaches f (start_run scheduler tracker n) r
    → IsConsistent n r
Reaches-IsConsistent f scheduler tracker n r here = start_run-IsConsistent scheduler tracker n
Reaches-IsConsistent f scheduler tracker n r (next {t} h s) =
    Step-IsConsistent s (Reaches-IsConsistent f scheduler tracker n t h)
