-- ===== src/Base/Results.antt =====
-- Rust's Result, and fallible code that changes a world around the program: git, the file system, a
-- provider. The `?` operator is the bind of a do block.

pub data Result {ℓ κ} (E : Type ℓ) (A : Type κ) : Type (ℓ ⊔ κ) where
  ok : A → Result E A
  err : E → Result E A

-- anyhow::Error, of which the messages are left out.
pub data Failure : Type 0 where
  failed : Failure

abbrev pub Action : Type 0 → Type 0 → Type 0 → Type 0
Action W E A = W → Result E A × W

-- `context`, and `map_err` with a constant.
abbrev pub with_error : {E E' A : Type 0} → E' → Result E A → Result E' A
with_error e (ok a) = ok a
with_error e (err _) = err e

module _ {W E : Type 0} where
  abbrev pub pure : {A : Type 0} → A → Action W E A
  pure a w = (ok a, w)

  abbrev pub fail : {A : Type 0} → E → Action W E A
  fail e w = (err e, w)

  abbrev pub and_then : {A B : Type 0} → Result E A × W → (A → Action W E B) → Result E B × W
  and_then (ok a, w) f = f a w
  and_then (err e, w) f = (err e, w)

  infixl 5 ◌>>=◌ ◌>>◌
  abbrev pub ◌>>=◌ : {A B : Type 0} → Action W E A → (A → Action W E B) → Action W E B
  ◌>>=◌ m f w = and_then (m w) f

  abbrev pub ◌>>◌ : {B : Type 0} → Action W E (Unit {0}) → Action W E B → Action W E B
  m >> k = m >>= λ _. k

  -- A result that is matched on, or thrown away.
  abbrev pub attempt : {E' A : Type 0} → Action W E A → Action W E' (Result E A)
  attempt m w = (ok (m w).0, (m w).1)

  abbrev pub map_error : {E' A : Type 0} → E' → Action W E A → Action W E' A
  map_error e m w = (with_error e (m w).0, (m w).1)
