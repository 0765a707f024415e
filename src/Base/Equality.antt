-- ===== src/Base/Equality.antt =====
-- Types whose values the program compares by `==`.
use Prim.Native.Nat.{ℕ, compare, Ordering}
use Prim.Native.String.{String}
use mathlib.Core.Path.{◌≡◌, refl}
use mathlib.Core.Logic.{◌↔◌, ◌≢◌}
use mathlib.Core.Bool.{Bool, true, false}
use native.Mathlib.Omega.{arith}
use text.Mathlib.Text.{◌==◌ as same_text}
use text.Mathlib.TextEquality.{eq_iff as same_text_iff}

-- PartialEq, where it decides equality.
pub record Comparable {ℓ} (K : Type ℓ) : Type ℓ where
  pub same : K → K → Bool
  pub same_iff : (j k : K) → (same j k ≡ true) ↔ (j ≡ k)

module _ {ℓ} {K : Type ℓ} ⦃c : Comparable K⦄ where
  infix 50 ◌==◌
  abbrev pub ◌==◌ : K → K → Bool
  j == k = c.same j k

  pub eq_self : (k : K) → (k == k) ≡ true
  eq_self k = (c.same_iff k k).1 refl

  pub eq→path : (j k : K) → (j == k) ≡ true → j ≡ k
  eq→path j k h = (c.same_iff j k).0 h

  pub ne→eq-false : (j k : K) → j ≢ k → (j == k) ≡ false
  ne→eq-false j k h = ground (arith, c.same_iff j k)

abbrev pub same_number : ℕ → ℕ → Bool
same_number m n = elim (compare m n) [ Ordering.eq ↦ true | _ ↦ false ]

pub same_number_iff : (m n : ℕ) → (same_number m n ≡ true) ↔ (m ≡ n)
same_number_iff m n = ground arith

instance abbrev pub comparable_number : Comparable ℕ
comparable_number = record { same = same_number; same_iff = same_number_iff }

instance abbrev pub comparable_text : Comparable String
comparable_text = record { same = same_text; same_iff = same_text_iff }
