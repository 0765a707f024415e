-- ===== src/Base/Triples.antt =====
-- What an action makes of the world: from `P`, it ends with an answer and `Q`, or with an error and `I`.
use mathlib.Core.Bool.{Bool, true, false}
use mathlib.Core.Path.{◌≡◌, refl}
use offload.Base.Tests.{if◌then◌else◌}
use offload.Base.Results.{Result, ok, err, Action, and_then, ◌>>=◌, attempt, with_error, map_error}

module _ {W E : Type 0} (I : W → Type 0) where
  abbrev pub Ends : {A : Type 0} → (A → W → Type 0) → Result E A × W → Type 0
  Ends Q (ok a, w) = Q a w
  Ends Q (err e, w) = I w

  pub record Ensures {A : Type 0} (P : W → Type 0) (m : Action W E A) (Q : A → W → Type 0)
      : Type 0 where
    pub ends : (w : W) → P w → Ends Q (m w)

  -- An action that keeps the invariant.
  abbrev pub Keeps : {A : Type 0} → Action W E A → Type 0
  Keeps m = Ensures I m (λ _. I)

  module _ {A : Type 0} where
    and_then-Ends :
        {B : Type 0} {Q : A → W → Type 0} (R : B → W → Type 0) (f : A → Action W E B)
        → ((a : A) → Ensures (Q a) (f a) R)
        → (x : Result E A × W) → Ends Q x
        → Ends R (and_then x f)
    and_then-Ends R f hf (ok a, w) h = (hf a).ends w h
    and_then-Ends R f hf (err e, w) h = h

    pub bind-Ensures :
        {B : Type 0} {P : W → Type 0} {Q : A → W → Type 0} {R : B → W → Type 0} {m : Action W E A}
        {f : A → Action W E B}
        → Ensures P m Q
        → ((a : A) → Ensures (Q a) (f a) R)
        → Ensures P (m >>= f) R
    bind-Ensures {R = R} {m = m} {f = f} hm hf = record {
      ends = λ w p. and_then-Ends R f hf (m w) (hm.ends w p);
    }

    pub pure-Keeps : (a : A) → Keeps (λ w. (ok a, w))
    pure-Keeps a = record { ends = λ w i. i }

    pub lift-Keeps : (x : Result E A) → Keeps (λ w. (x, w))
    lift-Keeps (ok a) = record { ends = λ w i. i }
    lift-Keeps (err e) = record { ends = λ w i. i }

    pub if-Ensures :
        {P : W → Type 0} {Q : A → W → Type 0} {m k : Action W E A} (b : Bool)
        → Ensures P m Q
        → Ensures P k Q
        → Ensures P (if b then m else k) Q
    if-Ensures true hm hk = hm
    if-Ensures false hm hk = hk

    Ends-snd : (x : Result E A × W) → Ends (λ _. I) x → I x.1
    Ends-snd (ok a, w) h = h
    Ends-snd (err e, w) h = h

    pub Keeps-snd : {m : Action W E A} → Keeps m → (w : W) → I w → I (m w).1
    Keeps-snd {m = m} h w i = Ends-snd (m w) (h.ends w i)

  -- What does not depend on the answer.
  snd-Ends : {A : Type 0} (x : Result E A × W) → I x.1 → Ends (λ _. I) x
  snd-Ends (ok a, w) h = h
  snd-Ends (err e, w) h = h

  pub snd-Keeps : {A : Type 0} {m : Action W E A} → ((w : W) → I w → I (m w).1) → Keeps m
  snd-Keeps {m = m} h = record { ends = λ w i. snd-Ends (m w) (h w i) }

-- An error that is matched on, or becomes another.
module _ {W E E' A : Type 0} (I : W → Type 0) where
  pub attempt-Keeps : {m : Action W E A} → Keeps I m → Keeps {E = E'} I (attempt m)
  attempt-Keeps h = record { ends = λ w i. Keeps-snd I h w i }

  map_error-Ends :
      (Q : A → W → Type 0) (e : E') (x : Result E A × W)
      → Ends I Q x
      → Ends {E = E'} I Q (with_error e x.0, x.1)
  map_error-Ends Q e (ok a, w) h = h
  map_error-Ends Q e (err _, w) h = h

  pub map_error-Ensures :
      {P : W → Type 0} {Q : A → W → Type 0} {m : Action W E A} (e : E')
      → Ensures I P m Q
      → Ensures I P (map_error e m) Q
  map_error-Ensures {Q = Q} {m = m} e h = record {
    ends = λ w p. map_error-Ends Q e (m w) (h.ends w p);
  }

-- A weaker invariant for the errors.
module _ {W E A : Type 0} (I J : W → Type 0) (weaken : (w : W) → J w → I w) where
  weaken-Ends : (Q : A → W → Type 0) (x : Result E A × W) → Ends J Q x → Ends I Q x
  weaken-Ends Q (ok a, w) h = h
  weaken-Ends Q (err e, w) h = weaken w h

  pub weaken-Ensures :
      {P : W → Type 0} {Q : A → W → Type 0} {m : Action W E A} → Ensures J P m Q → Ensures I P m Q
  weaken-Ensures {Q = Q} {m = m} h = record { ends = λ w p. weaken-Ends Q (m w) (h.ends w p) }

-- A bind that has given an answer.
pub bind-eq-ok :
    {W E A B : Type 0} (x : Result E A × W) (f : A → Action W E B) {b : B} {w' : W}
    → and_then x f ≡ (ok b, w')
    → (a : A) × (w : W) × (x ≡ (ok a, w)) × (f a w ≡ (ok b, w'))
bind-eq-ok (ok a, w) f h = (a, w, refl, h)
bind-eq-ok (err e, w) f h = cc
