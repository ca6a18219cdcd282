-- ===== src/Common/Outcomes.antt =====
-- What a call of a Go function comes to. `err` is a returned error of the given kind, `panic` a run
-- time panic, and `blocked` a receive from a channel on which nothing more arrives.
use mathlib.Core.Path.{◌≡◌, refl}
use mathlib.Core.Option.{Option, none, some}
use mathlib.Core.Logic.{◌⊎◌, inl, inr}

pub data Outcome {ℓ κ} (E : Type κ) (A : Type ℓ) : Type (ℓ ⊔ κ) where
  ok : A → Outcome E A
  err : E → Outcome E A
  panic : Outcome E A
  blocked : Outcome E A

-- The error type of a function that returns no error.
pub data NoError : Type 0 where

-- A call that returns no error inside one that may.
abbrev pub lift {ℓ κ} : {E : Type κ} {A : Type ℓ} → Outcome NoError A → Outcome E A
lift (ok a) = ok a
lift (err e) = elim e [ ]
lift panic = panic
lift blocked = blocked

-- A returned error inside another one.
abbrev pub map_err {ℓ κ ι} :
    {E : Type κ} {F : Type ι} {A : Type ℓ} → (E → F) → Outcome E A → Outcome F A
map_err f (ok a) = ok a
map_err f (err e) = err (f e)
map_err f panic = panic
map_err f blocked = blocked

-- `if err != nil`: the error as a value.
abbrev pub caught {ℓ κ} : {E : Type κ} {A : Type ℓ} → Outcome E A → Outcome NoError (E ⊎ A)
caught (ok a) = ok (inr a)
caught (err e) = ok (inl e)
caught panic = panic
caught blocked = blocked

infixl 5 ◌>>=◌
abbrev pub ◌>>=◌ {ℓ ι κ} :
    {E : Type κ} {A : Type ℓ} {B : Type ι} → Outcome E A → (A → Outcome E B) → Outcome E B
ok a >>= f = f a
err e >>= f = err e
panic >>= f = panic
blocked >>= f = blocked

-- The chain of steps each of which may not be possible.
infixl 5 ◌>>=?◌
abbrev pub ◌>>=?◌ {ℓ ι} : {A : Type ℓ} {B : Type ι} → Option A → (A → Option B) → Option B
none >>=? f = none
some a >>=? f = f a

pub >>=?-some {ℓ ι} :
    {A : Type ℓ} {B : Type ι} (m : Option A) (f : A → Option B) (b : B)
    → (m >>=? f) ≡ some b
    → (a : A) × (m ≡ some a) × (f a ≡ some b)
>>=?-some none f b h = absurd (cc)
>>=?-some (some a) f b h = (a, refl, h)

-- The call returns, and its result has the property.
abbrev pub Returns {ℓ κ} : {E : Type κ} {A : Type ℓ} → Outcome E A → (A → Type 0) → Type 0
Returns (ok a) P = P a
Returns _ P = ⊥

module _ {ℓ ι κ} {E : Type κ} {A : Type ℓ} {B : Type ι} where
  pub >>=-Returns :
      (m : Outcome E A) (f : A → Outcome E B) (P : A → Type 0) (Q : B → Type 0)
      → Returns m P
      → ((a : A) → P a → Returns (f a) Q)
      → Returns (m >>= f) Q
  >>=-Returns (ok a) f P Q h k = k a h
  >>=-Returns (err e) f P Q h k = absurd h
  >>=-Returns panic f P Q h k = absurd h
  >>=-Returns blocked f P Q h k = absurd h

pub Returns-mono {ℓ κ} :
    {E : Type κ} {A : Type ℓ} (m : Outcome E A) (P Q : A → Type 0)
    → Returns m P
    → ((a : A) → P a → Q a)
    → Returns m Q
Returns-mono (ok a) P Q h k = k a h
Returns-mono (err e) P Q h k = absurd h
Returns-mono panic P Q h k = absurd h
Returns-mono blocked P Q h k = absurd h

-- If the call returns, its result has the property.
abbrev pub IfReturns {ℓ κ} : {E : Type κ} {A : Type ℓ} → Outcome E A → (A → Type 0) → Type 0
IfReturns (ok a) P = P a
IfReturns _ P = Unit

pub >>=-IfReturns {ℓ ι κ} :
    {E : Type κ} {A : Type ℓ} {B : Type ι} (m : Outcome E A) (f : A → Outcome E B) (P : A → Type 0)
    (Q : B → Type 0)
    → IfReturns m P
    → ((a : A) → P a → IfReturns (f a) Q)
    → IfReturns (m >>= f) Q
>>=-IfReturns (ok a) f P Q h k = k a h
>>=-IfReturns (err e) f P Q h k = tt
>>=-IfReturns panic f P Q h k = tt
>>=-IfReturns blocked f P Q h k = tt
