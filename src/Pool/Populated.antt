-- ===== src/Pool/Populated.antt =====
-- What populate of src/orchestrator/pool.rs leaves in the pool.
use offload.Base.{
  ℕ, String, ◌≡◌, refl, sym, ap, ◌∙◌, subst, ◌⊎◌, inl, inr, List, [], ◌∷◌, ◌++◌, map, append-nil,
  append_assoc, Perm, comparable_number, comparable_text, ok, err,
}
use mathlib.Core.List.Perm
use offload.Retry.{ProviderError, Outcome, Outcome-cases}
use offload.Pool.{SandboxPool, SandboxProvider, add_sandbox, creation, populate, indices}

module _ {S : Type 0} (P : SandboxProvider S) (id : String) where
  -- The answers of the creations with these indices, and the sandboxes, one for each, that came into the pool.
  abbrev pub Gained : List ℕ → SandboxPool S → SandboxPool S → Type 0
  Gained is before after =
      (made : List S) × (after.sandboxes ≡ before.sandboxes ++ made)
      × Perm (map (creation P id) is) (map ok made)

  -- The creations in the order in which they end, up to the first that fails.
  pub record Stopped (order : List ℕ) (pool : SandboxPool S)
      (x : Outcome (Unit {0}) × SandboxPool S) : Type 0 where
    pub error : ProviderError
    pub returned : x.0 ≡ err error
    pub ended : List ℕ
    pub failing : ℕ
    pub unfinished : List ℕ
    pub in_order : order ≡ ended ++ failing ∷ unfinished
    pub refused : creation P id failing ≡ err error
    pub gained : Gained ended pool x.1

  abbrev pub Filled : List ℕ → SandboxPool S → Outcome (Unit {0}) × SandboxPool S → Type 0
  Filled is pool x = (x.0 ≡ ok tt) × Gained is pool x.1

  abbrev pub IsPopulated :
      List ℕ → List ℕ → SandboxPool S → Outcome (Unit {0}) × SandboxPool S → Type 0
  IsPopulated is order pool x = Filled is pool x ⊎ Stopped order pool x

  more-Gained :
      (i : ℕ) (is : List ℕ) (s : S) (pool after : SandboxPool S)
      → creation P id i ≡ ok s
      → Gained is (add_sandbox s pool) after
      → Gained (i ∷ is) pool after
  unfolding add_sandbox
  more-Gained i is s pool after e (made, a, p) = (
    s ∷ made,
    a ∙ append_assoc pool.sandboxes (s ∷ []) made,
    subst (λ o. Perm (o ∷ map (creation P id) is) (ok s ∷ map ok made)) (sym e)
        (Perm.cons (ok s) p),
  )

  populate-more :
      (i : ℕ) (rest : List ℕ) (s : S) (pool : SandboxPool S)
      (x : Outcome (Unit {0}) × SandboxPool S)
      → creation P id i ≡ ok s
      → IsPopulated rest rest (add_sandbox s pool) x
      → IsPopulated (i ∷ rest) (i ∷ rest) pool x
  populate-more i rest s pool x e (inl (r, g)) = inl (r, more-Gained i rest s pool x.1 e g)
  populate-more i rest s pool x e (inr h) = inr (record {
    error = h.error;
    returned = h.returned;
    ended = i ∷ h.ended;
    failing = h.failing;
    unfinished = h.unfinished;
    in_order = ap (◌∷◌ i) h.in_order;
    refused = h.refused;
    gained = more-Gained i h.ended s pool x.1 e h.gained;
  })

  populate_created :
      (i : ℕ) (rest : List ℕ) (pool : SandboxPool S) (s : S)
      → creation P id i ≡ ok s
      → populate P id (i ∷ rest) pool ≡ populate P id rest (add_sandbox s pool)
  unfolding populate
  populate_created i rest pool s e = rw (e, populate) refl

  populate_refused :
      (i : ℕ) (rest : List ℕ) (pool : SandboxPool S) (x : ProviderError)
      → creation P id i ≡ err x
      → populate P id (i ∷ rest) pool ≡ (err x, pool)
  unfolding populate
  populate_refused i rest pool x e = rw (e, populate) refl

  refused-Stopped :
      (i : ℕ) (rest : List ℕ) (pool : SandboxPool S) (x : ProviderError)
      → creation P id i ≡ err x
      → Stopped (i ∷ rest) pool (err x, pool)
  refused-Stopped i rest pool x e = record {
    error = x;
    returned = refl;
    ended = [];
    failing = i;
    unfinished = rest;
    in_order = refl;
    refused = e;
    gained = ([], sym (append-nil pool.sandboxes), Perm.nil);
  }

  populate-IsPopulated_so_far :
      (order : List ℕ) (pool : SandboxPool S)
      → IsPopulated order order pool (populate P id order pool)
  unfolding populate
  populate-IsPopulated_so_far [] pool = inl (refl, ([], sym (append-nil pool.sandboxes), Perm.nil))
  populate-IsPopulated_so_far (i ∷ rest) pool = elim (Outcome-cases (creation P id i)) [
    | inl (s, e) ↦
        subst (IsPopulated (i ∷ rest) (i ∷ rest) pool) (sym (populate_created i rest pool s e))
          (populate-more i rest s pool _ e (populate-IsPopulated_so_far rest (add_sandbox s pool)))
    | inr (x, e) ↦
        subst (IsPopulated (i ∷ rest) (i ∷ rest) pool) (sym (populate_refused i rest pool x e))
          (inr (refused-Stopped i rest pool x e))
  ]

  -- In whatever order the creations of `count` sandboxes end, populating a pool either succeeds, and the pool
  -- then has in addition what was created for each index below the count, once; or it returns the error of
  -- the first creation to fail, and the pool has in addition what was created for each index that ended
  -- before, once.
  pub populate-IsPopulated :
      (count : ℕ) (order : List ℕ) (pool : SandboxPool S)
      → Perm order (indices count)
      → IsPopulated (indices count) order pool (populate P id order pool)
  populate-IsPopulated count order pool p = elim (populate-IsPopulated_so_far order pool) [
    | inl (r, (made, a, q)) ↦
        inl (r, (made, a, Perm.trans (Perm.symm (Perm.map (creation P id) p)) q))
    | inr h ↦ inr h
  ]
