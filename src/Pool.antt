-- ===== src/Pool.antt =====
-- src/orchestrator/pool.rs. What the provider answers to each try to create a sandbox is given, and so is
-- the order in which the creations, which run at the same time, end. Progress bars are left out.
mod Populated
mod Samples
use Prim.Native.String.{◌++◌ as append}
use offload.Base.{
  ℕ, zero, suc, ◌+◌, ◌-◌, ◌*◌, ◌/◌, ◌%◌, ◌≤◌, ◌<◌, min, max, String, ◌≡◌, refl, sym, ap, ◌∙◌, subst,
  ◌≢◌, ◌↔◌, ◌⊎◌, inl, inr, Bool, true, false, not, ◌&&◌, ◌||◌, Option, none, some, List, [], ◌∷◌,
  ◌++◌, map, foldl, flatten, append-nil, append_assoc, map-append, Perm, arith, ltb, leb,
  if◌then◌else◌, ltb→lt, lt→ltb, leb→le, le→leb, leb-false→lt, Bool-cases, Option-cases, is_some,
  unwrap_or, length, take, drop, replicate, set, keep, all, sum_of, All, length-append,
  take-append-drop, length-take, length-drop, length-replicate, length-set, length-map,
  length-keep-le, sum_of-append, All-append, All-replicate, All-imp, All-keep, All-keep_self,
  Comparable, ◌==◌, comparable_number, comparable_text, eq_self, eq→path, ne→eq-false, contains,
  add, Distinct, contains-add, Distinct-add, length-add-le, get, insert, get-insert,
  get-insert_self, insert_by, sort_by, sort_by-perm, IsSorted, All-insert_by, All-sort_by,
  sort_by-IsSorted, flat_map, flat_map-append, flat_map-replicate_nil, flat_map-keep,
  keep-append-perm, flat_map-sort_by-perm, sum_of-perm, length-perm, contains-sort_by,
  Distinct-sort_by, keys, contains-keys-insert, IsTable, insert-IsTable, get-not_key, Result, ok,
  err, Failure, failed, Action, pure, fail, and_then, ◌>>=◌, ◌>>◌, attempt, with_error, map_error,
  any, Ends, Ensures, Keeps, bind-Ensures, pure-Keeps, lift-Keeps, if-Ensures, Keeps-snd,
  attempt-Keeps, map_error-Ensures, weaken-Ensures, snd-Keeps, bind-eq-ok,
}
use offload.Retry.{Outcome, with_retry}

pub record SandboxPool (S : Type 0) : Type 0 where
  pub sandboxes : List S

module _ {S : Type 0} where
  abbrev pub new : SandboxPool S
  new = record { sandboxes = [] }

  unfoldable pub add_sandbox : S → SandboxPool S → SandboxPool S
  add_sandbox s pool = record { sandboxes = pool.sandboxes ++ s ∷ [] }

  -- The sandboxes, and the pool that is left.
  unfoldable pub take_all : SandboxPool S → List S × SandboxPool S
  take_all pool = (pool.sandboxes, new)

-- `create_sandbox` for a configuration's id, at each of its evaluations, and the delays between them.
pub record SandboxProvider (S : Type 0) : Type 0 where
  pub create_sandbox : String → ℕ → Outcome S
  pub delays : List ℕ

-- A number in decimal digits, at most as many as the fuel: `n + 1` are enough for `n`.
abbrev digits : List String
digits = "0" ∷ "1" ∷ "2" ∷ "3" ∷ "4" ∷ "5" ∷ "6" ∷ "7" ∷ "8" ∷ "9" ∷ []

abbrev first_of : List String → String
first_of [] = ""
first_of (s ∷ ss) = s

unfoldable pub decimal : ℕ → ℕ → String
decimal zero n = ""
decimal (suc fuel) n =
    let higher = decimal fuel (n / 10) in
    append (if ltb n 10 then "" else higher) (first_of (drop (n % 10) digits))

unfoldable pub indexed_id : String → ℕ → String
unfolding decimal
indexed_id id i = append id (append "-" (decimal (i + 1) i))

module _ {S : Type 0} (P : SandboxProvider S) (id : String) where
  -- One of the futures.
  unfoldable pub creation : ℕ → Outcome S
  unfolding with_retry indexed_id
  creation i = (with_retry P.delays (P.create_sandbox (indexed_id id i))).0

  -- The indices of the creations come as these end, a permutation of the numbers below the count.
  unfoldable pub populate : List ℕ → SandboxPool S → Outcome (Unit {0}) × SandboxPool S
  unfolding add_sandbox creation
  populate [] pool = (ok tt, pool)
  populate (i ∷ rest) pool = elim (creation i) [
    | err e ↦ (err e, pool)
    | ok s ↦ populate rest (add_sandbox s pool)
  ]

-- The indices of as many sandboxes.
abbrev pub indices : ℕ → List ℕ
indices zero = []
indices (suc n) = n ∷ indices n
