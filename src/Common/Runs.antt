-- ===== src/Common/Runs.antt =====
-- Runs of C code that may fault, as a monad.

use mathlib.Core.Path.{◌≡◌, refl}
use mathlib.Core.Logic.{◌⊎◌, inl, inr}

-- What a run can do that C leaves undefined, or that stops the kernel.
pub data Fault : Type 0 where
  -- a read past the values that an array holds
  bad_read : Fault
  -- a write past the end of an array
  bad_write : Fault
  -- the use of a pointer that an allocation returned as NULL
  null_pointer : Fault
  -- a read of an object behind the release that freed it
  use_after_free : Fault
  divide_by_zero : Fault
  -- a mutex that its holder locks again
  deadlock : Fault
  out_of_fuel : Fault

pub data Exec {ℓ} (A : Type ℓ) : Type ℓ where
  ok : A → Exec A
  fault : Fault → Exec A

infixl 5 ◌>>=◌ ◌>>◌
abbrev pub ◌>>=◌ {ℓ κ} : {A : Type ℓ} {B : Type κ} → Exec A → (A → Exec B) → Exec B
ok a >>= k = k a
fault f >>= k = fault f

abbrev pub ◌>>◌ {ℓ} : {B : Type ℓ} → Exec (Unit {0}) → Exec B → Exec B
m >> k = m >>= λ _. k

-- The run ends normally, and its result satisfies `P`.
abbrev pub Returns {ℓ} : {A : Type ℓ} → (A → Type 0) → Exec A → Type 0
Returns P (ok a) = P a
Returns P (fault f) = ⊥

pub Returns-bind {ℓ κ} :
    {A : Type ℓ} {B : Type κ} (Between : A → Type 0) (Final : B → Type 0) (m : Exec A)
    (k : A → Exec B)
    → Returns Between m
    → ((a : A) → Between a → Returns Final (k a))
    → Returns Final (m >>= k)
Returns-bind Between Final (ok a) k p next = next a p
Returns-bind Between Final (fault f) k p next = absurd p

pub Returns-mono {ℓ} :
    {A : Type ℓ} (P Q : A → Type 0) (m : Exec A) → Returns P m → ((a : A) → P a → Q a) → Returns Q m
Returns-mono P Q (ok a) p weaken = weaken a p
Returns-mono P Q (fault f) p weaken = absurd p

-- What a run returns, with its equation.
pub Returns-ok {ℓ} :
    {A : Type ℓ} (P : A → Type 0) (m : Exec A) → Returns P m → (a : A) × (m ≡ ok a) × P a
Returns-ok P (ok a) p = (a, refl, p)
Returns-ok P (fault f) p = absurd p

-- A run ends with a good result or, for a reason, at a read behind the values of an array.
abbrev pub Ends {ℓ} : {A : Type ℓ} → (Reason : Type 0) → (A → Type 0) → Exec A → Type ℓ
Ends Reason Good m = Returns Good m ⊎ (Reason × (m ≡ fault bad_read))

pub Ends-weaken {ℓ} :
    {A : Type ℓ} (Reason : Type 0) (P Q : A → Type 0) (m : Exec A)
    → Ends Reason P m
    → ((a : A) → P a → Q a)
    → Ends Reason Q m
Ends-weaken Reason P Q m (inl h) weaken = inl (Returns-mono P Q m h weaken)
Ends-weaken Reason P Q m (inr bad) weaken = inr bad

pub Ends-mono {ℓ} :
    {A : Type ℓ} (R S : Type 0) (Good : A → Type 0) (m : Exec A)
    → (R → S)
    → Ends R Good m
    → Ends S Good m
Ends-mono R S Good m f (inl returns) = inl returns
Ends-mono R S Good m f (inr (reason, e)) = inr (f reason, e)

-- A run that goes on behind one that ends.
pub Ends-bind {ℓ κ} :
    {A : Type ℓ} {B : Type κ} (R : Type 0) (Between : A → Type 0) (Final : B → Type 0) (m : Exec A)
    (next : A → Exec B)
    → Ends R Between m
    → ((a : A) → Between a → Returns Final (next a))
    → Ends R Final (m >>= next)
Ends-bind R Between Final (ok a) next (inl b) f = inl (f a b)
Ends-bind R Between Final (fault x) next (inl b) f = absurd b
Ends-bind R Between Final m next (inr (reason, e)) f = inr (reason, rw e refl)

-- A run that goes on behind a result that is known.
pub Ends-next {ℓ κ} :
    {A : Type ℓ} {B : Type κ} (R : Type 0) (Final : B → Type 0) (m : Exec A) (a : A)
    (next : A → Exec B)
    → m ≡ ok a
    → Ends R Final (next a)
    → Ends R Final (m >>= next)
Ends-next R Final m a next e h = rw e h

-- What a run returns, if it does, satisfies `P`.
abbrev pub IfOk {ℓ} : {A : Type ℓ} → (A → Type 0) → Exec A → Type 0
IfOk P (ok a) = P a
IfOk P (fault f) = Unit

pub IfOk-bind {ℓ κ} :
    {A : Type ℓ} {B : Type κ} (Between : A → Type 0) (Final : B → Type 0) (m : Exec A)
    (next : A → Exec B)
    → IfOk Between m
    → ((a : A) → Between a → IfOk Final (next a))
    → IfOk Final (m >>= next)
IfOk-bind Between Final (ok a) next h f = f a h
IfOk-bind Between Final (fault x) next h f = tt

pub IfOk-ok {ℓ} : {A : Type ℓ} (P : A → Type 0) (m : Exec A) (a : A) → m ≡ ok a → IfOk P m → P a
IfOk-ok P m a e h = rw e at h

pub IfOk-any {ℓ} : {A : Type ℓ} (m : Exec A) → IfOk (λ a. Unit {0}) m
IfOk-any (ok a) = tt
IfOk-any (fault f) = tt
