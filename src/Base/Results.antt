-- ===== src/Base/Results.antt =====
-- What a call of kernel code comes to. `panic` prints a message and never returns; `endless` is a
-- loop that has used up the rounds that the model grants it.
use mathlib.Core.Path.{◌≡◌}

pub data Outcome {ℓ} (A : Type ℓ) : Type ℓ where
  ok : A → Outcome A
  panic : Outcome A
  endless : Outcome A

infixl 5 ◌>>=◌
abbrev pub ◌>>=◌ {ℓ κ} : {A : Type ℓ} {B : Type κ} → Outcome A → (A → Outcome B) → Outcome B
ok a >>= f = f a
panic >>= f = panic
endless >>= f = endless

-- The call returns, and what it returns has the property.
abbrev pub Returns {ℓ κ} : {A : Type ℓ} → (A → Type κ) → Outcome A → Type (ℓ ⊔ κ)
Returns {A} P r = (a : A) × (r ≡ ok a) × P a

pub bind-Returns {ℓ κ μ} :
    {A : Type ℓ} {B : Type ℓ} {P : A → Type κ} {Q : B → Type μ} {r : Outcome A} {k : A → Outcome B}
    → Returns P r
    → ((a : A) → P a → Returns Q (k a))
    → Returns Q (r >>= k)
bind-Returns (a, e, p) next = rw e (next a p)

-- If the call returns, what it returns has the property.
abbrev pub Ensures {ℓ κ} : {A : Type ℓ} → (A → Type κ) → Outcome A → Type κ
Ensures P (ok a) = P a
Ensures P panic = Unit
Ensures P endless = Unit

pub bind-Ensures {ℓ κ μ} :
    {A : Type ℓ} {B : Type κ} (P : A → Type μ) (Q : B → Type μ) (r : Outcome A) (k : A → Outcome B)
    → Ensures P r
    → ((a : A) → P a → Ensures Q (k a))
    → Ensures Q (r >>= k)
bind-Ensures P Q (ok a) k h next = next a h
bind-Ensures P Q panic k h next = tt
bind-Ensures P Q endless k h next = tt

pub then-Ensures {ℓ κ μ} :
    {A : Type ℓ} {B : Type κ} (Q : B → Type μ) (r : Outcome A) (k : A → Outcome B)
    → ((a : A) → Ensures Q (k a))
    → Ensures Q (r >>= k)
then-Ensures Q (ok a) k next = next a
then-Ensures Q panic k next = tt
then-Ensures Q endless k next = tt

pub panic-Ensures {ℓ κ μ} :
    {A : Type ℓ} {B : Type κ} (Q : B → Type μ) (r : Outcome A) (k : A → Outcome B)
    → r ≡ panic
    → Ensures Q (r >>= k)
panic-Ensures Q r k e = rw e tt

pub Ensures-ok {ℓ κ} :
    {A : Type ℓ} (P : A → Type κ) (r : Outcome A) (a : A) → Ensures P r → r ≡ ok a → P a
Ensures-ok P r a h e = rw e at h

pub weaken {ℓ κ μ} :
    {A : Type ℓ} (P : A → Type κ) (Q : A → Type μ) (r : Outcome A)
    → Ensures P r
    → ((a : A) → P a → Q a)
    → Ensures Q r
weaken P Q (ok a) h imp = imp a h
weaken P Q panic h imp = tt
weaken P Q endless h imp = tt

-- The call ends, in a result or in a panic.
abbrev pub Ends {ℓ} : {A : Type ℓ} → Outcome A → Type 0
Ends (ok a) = Unit
Ends panic = Unit
Ends endless = ⊥

pub then-Ends {ℓ κ} :
    {A : Type ℓ} {B : Type κ} (r : Outcome A) (k : A → Outcome B)
    → Ends r
    → ((a : A) → Ends (k a))
    → Ends (r >>= k)
then-Ends (ok a) k h next = next a
then-Ends panic k h next = tt
then-Ends endless k h next = h
