-- ===== src/Common/Fallible.antt =====
-- Chains of steps that may fail.
use mathlib.Core.Option
use mathlib.Core.Option.{Option, none, some}
use mathlib.Core.Path.{◌≡◌, ap, refl}
use mathlib.Core.Logic.{◌≢◌}
use mathlib.Core.Bool.{true, false}
use native.Mathlib.Omega.{arith}

infixl 5 ◌>>=◌
abbrev pub ◌>>=◌ {ℓ κ} : {A : Type ℓ} {B : Type κ} → Option A → (A → Option B) → Option B
none >>= f = none
some a >>= f = f a

pub some_injective {ℓ} : {A : Type ℓ} {y : A} (x : A) → some x ≡ some y → x ≡ y
some_injective x e = ap (λ o. elim o [ none ↦ x | some z ↦ z ]) e

pub true_is_not_false : true ≢ false
true_is_not_false e = ground (arith, e)

pub none_is_not_some {ℓ} : {A : Type ℓ} (x : A) → none ≢ some x
none_is_not_some x e = true_is_not_false (ap (λ o. elim o [ none ↦ true | some z ↦ false ]) e)

-- What a value that is there satisfies
abbrev pub IfSome {ℓ κ} : {A : Type ℓ} → (A → Type κ) → Option A → Type κ
IfSome P none = Unit
IfSome P (some a) = P a

pub IfSome-bind {ℓ κ μ} :
    {A : Type ℓ} {B : Type κ} (P : B → Type μ) (o : Option A) (f : A → Option B)
    → ((a : A) → o ≡ some a → IfSome P (f a))
    → IfSome P (o >>= f)
IfSome-bind P none f h = tt
IfSome-bind P (some a) f h = h a refl

pub IfSome-map {ℓ κ μ} :
    {A : Type ℓ} {B : Type κ} (P : B → Type μ) (o : Option A) (f : A → B)
    → IfSome (λ a. P (f a)) o
    → IfSome P (Option.map f o)
IfSome-map P none f h = tt
IfSome-map P (some a) f h = h

pub IfSome-mono {ℓ κ μ} :
    {A : Type ℓ} {P : A → Type κ} {Q : A → Type μ} (o : Option A)
    → ((a : A) → P a → Q a)
    → IfSome P o
    → IfSome Q o
IfSome-mono none f h = tt
IfSome-mono (some a) f h = f a h
