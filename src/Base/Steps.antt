-- ===== src/Base/Steps.antt =====
-- Rules for what a chain of steps returns, by which `search` goes along a do block.
use mathlib.Core.Bool.{Bool, true, false}
use gribbi.Base.Tests.{if◌then◌else◌}
use gribbi.Base.Errors.{Result, ok, err, ◌>>=◌, Returns}
use mathlib.Core.Path.{◌≡◌, refl, subst}

-- A step whose result does not matter.
pub skip :
    {A B : Type 0} (Q : B → Type 0) (r : Result A) (f : A → Result B)
    → ((a : A) → Returns Q (f a))
    → Returns Q (r >>= f)
skip Q (ok a) f k = k a
skip Q (err e) f k = tt

pub either :
    {A : Type 0} (Q : A → Type 0) (b : Bool) (r s : Result A)
    → Returns Q r
    → Returns Q s
    → Returns Q (if b then r else s)
either Q true r s h k = h
either Q false r s h k = k

-- A step, with its result known.
pub known :
    {A B : Type 0} (Q : B → Type 0) (r : Result A) (f : A → Result B)
    → ((a : A) → r ≡ ok a → Returns Q (f a))
    → Returns Q (r >>= f)
known Q (ok a) f k = k a refl
known Q (err e) f k = tt

-- A step with a property.
pub met :
    {A B : Type 0} (P : A → Type 0) (Q : B → Type 0) (r : Result A) (f : A → Result B)
    → Returns P r
    → ((a : A) → P a → Returns Q (f a))
    → Returns Q (r >>= f)
met P Q (ok a) f h k = k a h
met P Q (err e) f h k = tt

-- A step that keeps a property, and what follows it.
pub kept :
    {A : Type 0} (P : A → Type 0) (r : Result A) (f : A → Result A)
    → Returns P r
    → ((a : A) → P a → Returns P (f a))
    → Returns P (r >>= f)
kept P = met P P

-- A step that is done.
pub found :
    {A B : Type 0} (Q : B → Type 0) (a : A) (f : A → Result B)
    → Returns Q (f a)
    → Returns Q (ok a >>= f)
found Q a f h = h

-- Two chains with a common first step.
pub both :
    {A B C : Type 0} (Q : B → Result C → Type 0) (r : Result A) (f : A → Result B)
    (h : A → Result C)
    → ((a : A) → Returns (λ b. Q b (h a)) (f a))
    → Returns (λ b. Q b (r >>= h)) (r >>= f)
both Q (ok a) f h k = k a
both Q (err e) f h k = tt

-- What is returned has the property.
pub returned : {A : Type 0} (Q : A → Type 0) (r : Result A) (a : A) → r ≡ ok a → Returns Q r → Q a
returned Q r a p h = subst (Returns Q) p h
