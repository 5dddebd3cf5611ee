-- ===== src/Base/Maybe.antt =====
-- Chains of steps that may fail, over `Option`.
use mathlib.Core.Path.{◌≡◌, refl, ap}
use mathlib.Core.Bool.{Bool, true, false}
use mathlib.Core.Option.{Option, none, some}

infixl 5 ◌>>=◌
abbrev pub ◌>>=◌ {ℓ κ} : {A : Type ℓ} {B : Type κ} → Option A → (A → Option B) → Option B
none >>= f = none
some a >>= f = f a

pub >>=-eq-some {ℓ κ} :
    {A : Type ℓ} {B : Type κ} (m : Option A) (f : A → Option B) {b : B}
    → (m >>= f) ≡ some b
    → (a : A) × (m ≡ some a) × (f a ≡ some b)
>>=-eq-some none f h = cc
>>=-eq-some (some a) f h = (a, refl, h)

-- A chain goes on from what its first part returns.
pub bind-some {ℓ} :
    {A B C : Type ℓ} (o : Option A) (f : A → Option B) (g : B → Option C) (b : B)
    → (o >>= f) ≡ some b
    → (o >>= λ a. f a >>= g) ≡ g b
bind-some none f g b h = cc
bind-some (some a) f g b h = ap (λ p. p >>= g) h

-- What holds in both cases of a test, or of an option, holds of the choice between them.
pub bool_cases {ℓ κ} :
    {A : Type ℓ} (P : A → Type κ) (c : Bool) (x y : A)
    → (c ≡ false → P x)
    → (c ≡ true → P y)
    → P (elim c [ false ↦ x | true ↦ y ])
bool_cases P false x y p q = p refl
bool_cases P true x y p q = q refl

pub option_cases {ℓ κ ν} :
    {A : Type ℓ} {B : Type ν} (P : B → Type κ) (o : Option A) (x : B) (f : A → B)
    → P x
    → ((a : A) → P (f a))
    → P (elim o [ none ↦ x | some a ↦ f a ])
option_cases P none x f p q = p
option_cases P (some a) x f p q = q a

-- What holds of a failure, and of all that the second part of a chain returns, holds of the chain.
pub bind_cases {ℓ κ ν μ} :
    {A : Type ℓ} {B : Type κ} (Q : Option A → Type ν) (P : Option B → Type μ) (o : Option A)
    (f : A → Option B)
    → Q o
    → P none
    → ((a : A) → Q (some a) → P (f a))
    → P (o >>= f)
bind_cases Q P none f q p h = p
bind_cases Q P (some a) f q p h = h a q

pub bind_holds {ℓ κ ν} :
    {A : Type ℓ} {B : Type κ} (P : Option B → Type ν) (o : Option A) (f : A → Option B)
    → P none
    → ((a : A) → P (f a))
    → P (o >>= f)
bind_holds P none f p h = p
bind_holds P (some a) f p h = h a
