-- ===== src/Base/Results.antt =====
-- Postconditions of computations that may fail.
use mathlib.Core.Path.{◌≡◌, refl, subst}
use mathlib.Core.Option.{Option, none, some, some-injective}
use lobsimulater.Base.Tests.{◌>>=◌}

-- What holds of a result, if there is one.
pub data Ensures {A : Type 0} (P : A → Type 0) : Option A → Type 0 where
  of_none : Ensures P none
  of_some : {a : A} → P a → Ensures P (some a)

pub Ensures-bind :
    {A B : Type 0} {P : B → Type 0} (m : Option A) (f : A → Option B)
    → ((a : A) → Ensures P (f a))
    → Ensures P (m >>= f)
Ensures-bind none f h = of_none
Ensures-bind (some a) f h = h a

pub Ensures-elim :
    {A : Type 0} {P : A → Type 0} {m : Option A} {a : A} → Ensures P m → m ≡ some a → P a
Ensures-elim of_none e = cc
Ensures-elim {P = P} (of_some h) e = subst P (some-injective _ _ e) h

-- The same where the step has a postcondition of its own.
pub Ensures-then :
    {A B : Type 0} {P : A → Type 0} {Q : B → Type 0} {m : Option A} (f : A → Option B)
    → Ensures P m
    → ((a : A) → P a → Ensures Q (f a))
    → Ensures Q (m >>= f)
Ensures-then f of_none h = of_none
Ensures-then f (of_some {a} p) h = h a p

-- A weaker postcondition.
pub Ensures-weaken :
    {A : Type 0} {P Q : A → Type 0} {m : Option A}
    → Ensures P m
    → ((a : A) → P a → Q a)
    → Ensures Q m
Ensures-weaken of_none f = of_none
Ensures-weaken (of_some {a} h) f = of_some (f a h)

-- Two postconditions of one computation.
pub Ensures-both :
    {A : Type 0} {P Q : A → Type 0} {m : Option A}
    → Ensures P m
    → Ensures Q m
    → Ensures (λ a. P a × Q a) m
Ensures-both of_none h = of_none
Ensures-both (of_some p) h = of_some (p, Ensures-elim h refl)
