-- ===== src/Base/Sorting.antt =====
-- slice::sort_by: a stable sort by a Boolean order, as insertion sort.
use mathlib.Core.Path.{◌≡◌, refl}
use mathlib.Core.Bool.{Bool, true, false, ◌||◌}
use mathlib.Core.List.{List, [], ◌∷◌, ◌++◌, map, Perm, append_assoc, perm_append_comm}
use mathlib.Core.List.Perm
use native.Mathlib.Omega.{arith}
use offload.Base.Tests.{if◌then◌else◌, Bool-cases}
use mathlib.Core.Logic.{inl, inr}
use offload.Base.Equality.{Comparable, ◌==◌}
use offload.Base.Maps.{contains, Distinct}
use offload.Base.Lists.{All, All-imp, flat_map}

module _ {ℓ} {A : Type ℓ} (le : A → A → Bool) where
  -- `x` goes in front of the first element that it is not behind: equal elements keep their order.
  unfoldable pub insert_by : A → List A → List A
  insert_by x [] = x ∷ []
  insert_by x (y ∷ ys) = if le x y then x ∷ y ∷ ys else y ∷ insert_by x ys

  unfoldable pub sort_by : List A → List A
  unfolding insert_by
  sort_by [] = []
  sort_by (x ∷ xs) = insert_by x (sort_by xs)

  insert_by-perm : (x : A) (xs : List A) → Perm (insert_by x xs) (x ∷ xs)
  unfolding insert_by
  insert_by-perm x [] = Perm.rfl
  insert_by-perm x (y ∷ ys) = elim (Bool-cases (le x y)) [
    | inl h ↦ rw h Perm.rfl
    | inr h ↦ rw h (Perm.trans (Perm.cons y (insert_by-perm x ys)) (Perm.swap x y ys))
  ]

  pub sort_by-perm : (xs : List A) → Perm (sort_by xs) xs
  unfolding sort_by
  sort_by-perm [] = Perm.rfl
  sort_by-perm (x ∷ xs) = Perm.trans (insert_by-perm x (sort_by xs)) (Perm.cons x (sort_by-perm xs))

  -- Each element stands before those behind it.
  abbrev pub IsSorted : List A → Type ℓ
  IsSorted [] = Unit
  IsSorted (x ∷ xs) = All (λ y. le x y ≡ true) xs × IsSorted xs

  pub All-insert_by {κ} :
      (P : A → Type κ) (x : A) (xs : List A) → P x → All P xs → All P (insert_by x xs)
  unfolding insert_by
  All-insert_by P x [] h k = (h, tt)
  All-insert_by P x (y ∷ ys) h k = elim (Bool-cases (le x y)) [
    | inl t ↦ rw t (h, k)
    | inr t ↦ rw t (k.0, All-insert_by P x ys h k.1)
  ]

  pub All-sort_by {κ} : (P : A → Type κ) (xs : List A) → All P xs → All P (sort_by xs)
  unfolding sort_by
  All-sort_by P [] h = tt
  All-sort_by P (x ∷ xs) h = All-insert_by P x (sort_by xs) h.0 (All-sort_by P xs h.1)

-- Along a total and transitive order the result is sorted.
module _ {ℓ} {A : Type ℓ} (le : A → A → Bool) where
  insert_by-IsSorted :
      ((a b : A) → le a b ≡ false → le b a ≡ true)
      → ((a b c : A) → le a b ≡ true → le b c ≡ true → le a c ≡ true)
      → (x : A) (xs : List A) → IsSorted le xs
      → IsSorted le (insert_by le x xs)
  unfolding insert_by
  insert_by-IsSorted total trans x [] h = (tt, tt)
  insert_by-IsSorted total trans x (y ∷ ys) h = elim (Bool-cases (le x y)) [
    | inl t ↦ rw t ((t, All-imp (λ b. trans x y b t) ys h.0), h)
    | inr t ↦ rw t (
      All-insert_by le (λ z. le y z ≡ true) x ys (total x y t) h.0,
      insert_by-IsSorted total trans x ys h.1,
    )
  ]

  pub sort_by-IsSorted :
      ((a b : A) → le a b ≡ false → le b a ≡ true)
      → ((a b c : A) → le a b ≡ true → le b c ≡ true → le a c ≡ true)
      → (xs : List A) → IsSorted le (sort_by le xs)
  unfolding sort_by
  sort_by-IsSorted total trans [] = tt
  sort_by-IsSorted total trans (x ∷ xs) =
      insert_by-IsSorted total trans x (sort_by le xs) (sort_by-IsSorted total trans xs)

-- Sorting keeps what the elements hold together.
module _ {ℓ κ} {A : Type ℓ} {B : Type κ} (le : A → A → Bool) (f : A → List B) where
  flat_map-insert_by-perm :
      (x : A) (xs : List A) → Perm (flat_map f (insert_by le x xs)) (f x ++ flat_map f xs)
  unfolding insert_by
  flat_map-insert_by-perm x [] = Perm.rfl
  flat_map-insert_by-perm x (y ∷ ys) = elim (Bool-cases (le x y)) [
    | inl h ↦ rw h Perm.rfl
    | inr h ↦ rw h (
        Perm.trans (Perm.append_left (f y) (flat_map-insert_by-perm x ys)) (
          rw
            (← append_assoc (f y) (f x) (flat_map f ys), ← append_assoc (f x) (f y) (flat_map f ys))
            (Perm.append_right (flat_map f ys) (perm_append_comm (f y) (f x)))))
  ]

  pub flat_map-sort_by-perm : (xs : List A) → Perm (flat_map f (sort_by le xs)) (flat_map f xs)
  unfolding sort_by
  flat_map-sort_by-perm [] = Perm.rfl
  flat_map-sort_by-perm (x ∷ xs) =
      Perm.trans (flat_map-insert_by-perm x (sort_by le xs))
        (Perm.append_left (f x) (flat_map-sort_by-perm xs))

-- Distinct labels stay distinct under sorting.
module _ {ℓ κ} {A : Type ℓ} {K : Type κ} ⦃e : Comparable K⦄ (le : A → A → Bool) (f : A → K) where
  contains-insert_by :
      (k : K) (x : A) (xs : List A)
      → contains k (map f (insert_by le x xs)) ≡ (k == f x || contains k (map f xs))
  unfolding insert_by contains
  contains-insert_by k x [] = refl
  contains-insert_by k x (y ∷ ys) = ground (arith, contains-insert_by k x ys)

  Distinct-insert_by :
      (x : A) (xs : List A)
      → contains (f x) (map f xs) ≡ false
      → Distinct (map f xs)
      → Distinct (map f (insert_by le x xs))
  unfolding insert_by contains
  Distinct-insert_by x [] h d = (refl, tt)
  Distinct-insert_by x (y ∷ ys) h d = elim (Bool-cases (le x y)) [
    | inl t ↦ rw t (h, d)
    | inr t ↦ rw t (
      ground (arith, contains-insert_by (f y) x ys, e.same_iff (f y) (f x), e.same_iff (f x) (f y)),
      Distinct-insert_by x ys (ground arith) d.1,
    )
  ]

  pub contains-sort_by :
      (k : K) (xs : List A) → contains k (map f (sort_by le xs)) ≡ contains k (map f xs)
  unfolding sort_by contains
  contains-sort_by k [] = refl
  contains-sort_by k (x ∷ xs) =
      ground (arith, contains-insert_by k x (sort_by le xs), contains-sort_by k xs)

  pub Distinct-sort_by : (xs : List A) → Distinct (map f xs) → Distinct (map f (sort_by le xs))
  unfolding sort_by
  Distinct-sort_by [] d = tt
  Distinct-sort_by (x ∷ xs) d =
      Distinct-insert_by x (sort_by le xs) (rw (contains-sort_by (f x) xs) d.0)
        (Distinct-sort_by xs d.1)
