-- ===== src/Common/Fallible.antt =====
-- Code that may fault: `none` is an access outside the allocated memory, a dangling or null
-- pointer, or a loop that ran out of fuel.
use mathlib.Core.Path.{◌≡◌}
use mathlib.Core.Option.{Option, none, some}

infixl 5 ◌>>=◌
abbrev pub ◌>>=◌ {ℓ κ} : {A : Type ℓ} {B : Type κ} → Option A → (A → Option B) → Option B
none >>= f = none
some a >>= f = f a

-- A run that returns a value with the property `P`; a fault has none.
abbrev pub Returns {ℓ κ} : {A : Type ℓ} → (A → Type κ) → Option A → Type (ℓ ⊔ κ)
Returns {A} P r = (a : A) × (r ≡ some a) × P a

-- A run whose result, if it returns, has the property `P`.
abbrev pub IfReturns {ℓ κ} : {A : Type ℓ} → (A → Type κ) → Option A → Type κ
IfReturns P none = Unit
IfReturns P (some a) = P a

pub IfReturns->>= {ℓ κ μ} :
    {A : Type ℓ} {B : Type κ} (P : B → Type μ) (o : Option A) (f : A → Option B)
    → ((a : A) → IfReturns P (f a))
    → IfReturns P (o >>= f)
IfReturns->>= P none f h = tt
IfReturns->>= P (some a) f h = h a

pub IfReturns-some {ℓ κ} :
    {A : Type ℓ} (P : A → Type κ) (o : Option A) (a : A) → IfReturns P o → o ≡ some a → P a
IfReturns-some P o a h e = (rw e at h)
