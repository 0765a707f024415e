-- ===== src/Base/Maps.antt =====
-- HashMap as an association list and HashSet as a list. The order in which a table is iterated is
-- unspecified in the program; here it is the order of insertion.
use Prim.Native.Nat.{◌+◌, ◌≤◌}
use mathlib.Core.Path.{◌≡◌, refl, sym, subst}
use mathlib.Core.Bool.{Bool, false, ◌||◌}
use mathlib.Core.Option.{Option, none, some}
use mathlib.Core.List.{List, [], ◌∷◌, map}
use native.Mathlib.Omega.{arith}
use mathlib.Core.Logic.{inl, inr}
use offload.Base.Tests.{if◌then◌else◌, Bool-cases}
use offload.Base.Lists.{length}
use offload.Base.Equality.{Comparable, ◌==◌, eq_self}

module _ {ℓ} {K : Type ℓ} ⦃e : Comparable K⦄ where
  -- HashSet::contains
  unfoldable pub contains : K → List K → Bool
  contains k [] = false
  contains k (j ∷ s) = k == j || contains k s

  -- HashSet::insert
  unfoldable pub add : K → List K → List K
  add k s = if contains k s then s else k ∷ s

  -- No element twice.
  abbrev pub Distinct : List K → Type 0
  Distinct [] = Unit
  Distinct (k ∷ s) = (contains k s ≡ false) × Distinct s

  pub contains-add : (k j : K) (s : List K) → contains j (add k s) ≡ (j == k || contains j s)
  unfolding add contains
  contains-add k j s =
      ground (
        arith,
        e.same_iff j k,
        λ (p : j ≡ k). subst (λ x. contains x s ≡ contains k s) (sym p) refl,
      )

  pub Distinct-add : (k : K) (s : List K) → Distinct s → Distinct (add k s)
  unfolding add
  Distinct-add k s h = ground arith

  pub length-add-le : (k : K) (s : List K) → length (add k s) ≤ length s + 1
  unfolding add
  length-add-le k s = ground arith

module _ {ℓ κ} {K : Type ℓ} {V : Type κ} ⦃e : Comparable K⦄ where
  -- HashMap::get
  unfoldable pub get : K → List (K × V) → Option V
  get k [] = none
  get k ((j, v) ∷ m) = if k == j then some v else get k m

  -- HashMap::insert
  unfoldable pub insert : K → V → List (K × V) → List (K × V)
  insert k v [] = (k, v) ∷ []
  insert k v ((j, w) ∷ m) = if k == j then (j, v) ∷ m else (j, w) ∷ insert k v m

  pub get-insert :
      (k j : K) (v : V) (m : List (K × V))
      → get j (insert k v m) ≡ (if j == k then some v else get j m)
  unfolding get insert
  get-insert k j v [] = refl
  get-insert k j v ((i, w) ∷ m) =
      ground (arith, e.same_iff k i, e.same_iff j i, e.same_iff j k, get-insert k j v m)

  pub get-insert_self : (k : K) (v : V) (m : List (K × V)) → get k (insert k v m) ≡ some v
  get-insert_self k v m = rw (get-insert k k v m, eq_self k)

-- The keys of a table.
module _ {ℓ κ} {K : Type ℓ} {V : Type κ} ⦃e : Comparable K⦄ where
  abbrev pub keys : List (K × V) → List K
  keys m = map (λ p. p.0) m

  pub contains-keys-insert :
      (k j : K) (v : V) (m : List (K × V))
      → contains k (keys (insert j v m)) ≡ (k == j || contains k (keys m))
  unfolding contains insert
  contains-keys-insert k j v [] = refl
  contains-keys-insert k j v ((i, w) ∷ m) =
      ground (arith, contains-keys-insert k j v m, e.same_iff j i, e.same_iff k j, e.same_iff k i)

  -- No key twice.
  abbrev pub IsTable : List (K × V) → Type 0
  IsTable m = Distinct (keys m)

  pub insert-IsTable : (j : K) (v : V) (m : List (K × V)) → IsTable m → IsTable (insert j v m)
  unfolding insert
  insert-IsTable j v [] h = (unfold contains in refl, tt)
  insert-IsTable j v ((i, w) ∷ m) h = elim (Bool-cases (j == i)) [
    | inl t ↦ rw t h
    | inr t ↦ rw t (
      ground (arith, contains-keys-insert i j v m, e.same_iff i j, e.same_iff j i, h.0),
      insert-IsTable j v m h.1,
    )
  ]

  pub get-not_key : (k : K) (m : List (K × V)) → contains k (keys m) ≡ false → get k m ≡ none
  unfolding get contains
  get-not_key k [] h = refl
  get-not_key k ((j, v) ∷ m) h = ground (arith, get-not_key k m)
