-- ===== src/Base/Run.antt =====
-- How a call ends: with a value, or in what C leaves undefined, a NULL pointer followed or an array
-- index out of range.
use mathlib.Core.Path.{◌≡◌, refl}
use mathlib.Core.Bool.{Bool, true, false}
use mathlib.Core.Option.{Option, none, some}
use nvme_plus.Base.Tests.{if◌then◌else◌, if_elim}

pub data Run {ℓ} (A : Type ℓ) : Type ℓ where
  ok : A → Run A
  fault : Run A

infixl 5 ◌>>=◌
abbrev pub ◌>>=◌ {ℓ κ} : {A : Type ℓ} {B : Type κ} → Run A → (A → Run B) → Run B
ok a >>= f = f a
fault >>= f = fault

-- A pointer that is followed.
abbrev pub deref {ℓ} : {A : Type ℓ} → Option A → Run A
deref none = fault
deref (some a) = ok a

-- The call ends with a value of which P holds.
abbrev pub Ends {ℓ} : {A : Type ℓ} → (A → Type 0) → Run A → Type 0
Ends P (ok a) = P a
Ends P fault = ⊥

pub Ends-bind {ℓ κ} :
    {A : Type ℓ} {B : Type κ} (P : A → Type 0) (Q : B → Type 0) (m : Run A) (f : A → Run B)
    → Ends P m
    → ((a : A) → P a → Ends Q (f a))
    → Ends Q (m >>= f)
Ends-bind P Q (ok a) f h k = k a h
Ends-bind P Q fault f h k = absurd h

pub Ends-map {ℓ} :
    {A : Type ℓ} (P Q : A → Type 0) (m : Run A) → Ends P m → ((a : A) → P a → Q a) → Ends Q m
Ends-map P Q (ok a) h k = k a h
Ends-map P Q fault h k = h

pub Ends-if {ℓ} :
    {A : Type ℓ} (P : A → Type 0) (b : Bool) (x y : Run A)
    → (b ≡ true → Ends P x)
    → (b ≡ false → Ends P y)
    → Ends P (if b then x else y)
Ends-if P b x y t f = if_elim {x = x} {y = y} (Ends P) b t f

-- If the call ends, then with a value of which P holds.
abbrev pub Leaves {ℓ} : {A : Type ℓ} → (A → Type 0) → Run A → Type 0
Leaves P (ok a) = P a
Leaves P fault = Unit {0}

pub any_value {ℓ} : {A : Type ℓ} (m : Run A) → Leaves (λ a. Unit {0}) m
any_value (ok a) = tt
any_value fault = tt

pub Leaves-bind {ℓ κ} :
    {A : Type ℓ} {B : Type κ} (P : A → Type 0) (Q : B → Type 0) (m : Run A) (f : A → Run B)
    → Leaves P m
    → ((a : A) → P a → Leaves Q (f a))
    → Leaves Q (m >>= f)
Leaves-bind P Q (ok a) f h k = k a h
Leaves-bind P Q fault f h k = tt

pub Ends-Leaves {ℓ} :
    {A : Type ℓ} (P Q : A → Type 0) (m : Run A) → Ends P m → Leaves Q m → Ends (λ a. P a × Q a) m
Ends-Leaves P Q (ok a) p q = (p, q)
Ends-Leaves P Q fault p q = p

pub Ends-value {ℓ} : {A : Type ℓ} (P : A → Type 0) (m : Run A) → Ends P m → (a : A) × (m ≡ ok a)
Ends-value P (ok a) h = (a, refl)
Ends-value P fault h = absurd h

pub Ends-both {ℓ} :
    {A : Type ℓ} (P Q : A → Type 0) (m : Run A) → Ends P m → Ends Q m → Ends (λ a. P a × Q a) m
Ends-both P Q (ok a) p q = (p, q)
Ends-both P Q fault p q = p

pub bind_cong {ℓ κ} :
    {A : Type ℓ} {B : Type κ} (m : Run A) (f g : A → Run B)
    → ((a : A) → f a ≡ g a)
    → (m >>= f) ≡ (m >>= g)
bind_cong (ok a) f g h = h a
bind_cong fault f g h = refl

pub bind_assoc {ℓ κ μ} :
    {A : Type ℓ} {B : Type κ} {C : Type μ} (m : Run A) (f : A → Run B) (g : B → Run C)
    → ((m >>= f) >>= g) ≡ (m >>= λ a. f a >>= g)
bind_assoc (ok a) f g = refl
bind_assoc fault f g = refl
