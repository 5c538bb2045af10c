-- ===== src/Base/Outcome.antt =====
-- What a fallible Go function does: it returns a value, returns an error, or panics.
use mathlib.Core.Path.{◌≡◌, refl}
use mathlib.Core.Bool.{Bool, true, false}
use bittorrent_client_go.Base.Tests.{if◌then◌else◌}

pub data Result {ℓ} (E : Type 0) (A : Type ℓ) : Type ℓ where
  ok : A → Result E A
  err : E → Result E A
  panic : Result E A

infixl 5 ◌>>=◌
abbrev pub ◌>>=◌ {ℓ κ} :
    {E : Type 0} {A : Type ℓ} {B : Type κ} → Result E A → (A → Result E B) → Result E B
ok a >>= f = f a
err e >>= f = err e
panic >>= f = panic

module _ {ℓ κ} {E : Type 0} {A : Type ℓ} {B : Type κ} where
  pub bind-eq-ok :
      (m : Result E A) (f : A → Result E B) {b : B}
      → (m >>= f) ≡ ok b
      → (a : A) × (m ≡ ok a) × (f a ≡ ok b)
  bind-eq-ok (ok a) f h = (a, refl, h)
  bind-eq-ok (err e) f h = cc
  bind-eq-ok panic f h = cc

-- What holds of a value that is returned, and of an error that is returned.
abbrev pub Post {ℓ κ} :
    {E : Type 0} {A : Type ℓ} → (A → Type κ) → (E → Type κ) → Result E A → Type κ
Post Q R (ok a) = Q a
Post Q R (err e) = R e
Post Q R panic = Unit

module _ {ℓ κ ι} {E : Type 0} {A : Type ℓ} {B : Type κ} where
  pub bind-Post :
      (P : A → Type ι) (Q : B → Type ι) (R : E → Type ι) (m : Result E A) (f : A → Result E B)
      → Post P R m
      → ((a : A) → P a → Post Q R (f a))
      → Post Q R (m >>= f)
  bind-Post P Q R (ok a) f h g = g a h
  bind-Post P Q R (err e) f h g = h
  bind-Post P Q R panic f h g = tt

pub if-Post {ℓ ι} :
    {E : Type 0} {A : Type ℓ} (Q : A → Type ι) (R : E → Type ι) (b : Bool) (x y : Result E A)
    → Post Q R x
    → Post Q R y
    → Post Q R (if b then x else y)
if-Post Q R true x y h k = h
if-Post Q R false x y h k = k
