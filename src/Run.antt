-- ===== src/Run.antt =====
-- Outcomes of C code. A run ends with a value, or faults on what C leaves undefined and the
-- sources must never do: touching memory outside an object, using a variable that nothing has
-- been stored in, or reading another union member than the one last written. A loop that is
-- modelled on fuel has one more outcome, `out_of_fuel`; `dead_object` is the use of an object of the
-- operating system that is not open, or not any more.
use netscope.Base.{Bytes, ◌≡◌, refl, Bool, true, false, Option, none, some, if◌then◌else◌}

pub data Fault : Type 0 where
  out_of_bounds uninitialised wrong_member out_of_fuel dead_object : Fault

pub data Run {ℓ} (A : Type ℓ) : Type ℓ where
  done : A → Run A
  fault : Fault → Run A

infixl 5 ◌>>=◌
abbrev pub ◌>>=◌ {ℓ κ} : {A : Type ℓ} {B : Type κ} → Run A → (A → Run B) → Run B
done a >>= f = f a
fault e >>= f = fault e

-- The answer of a function that returns false with a message in `err_buf`, or true.
pub data Outcome {ℓ} (A : Type ℓ) : Type ℓ where
  refused : Bytes → Outcome A
  accepted : A → Outcome A

-- The run ends normally, in a value that satisfies `P`.
abbrev pub Returns {ℓ} : {A : Type ℓ} → Run A → (A → Type 0) → Type 0
Returns (done a) P = P a
Returns (fault e) P = ⊥

-- A C variable that may not have been stored into yet.
abbrev pub init {ℓ} : {A : Type ℓ} → Option A → Run A
init none = fault Fault.uninitialised
init (some a) = done a

pub Returns-bind {ℓ} :
    {A B : Type ℓ} (m : Run A) (f : A → Run B) (P : A → Type 0) (Q : B → Type 0)
    → Returns m P
    → ((a : A) → P a → Returns (f a) Q)
    → Returns (m >>= f) Q
Returns-bind (done a) f P Q h k = k a h
Returns-bind (fault e) f P Q h k = absurd h

-- What follows may use how the first run ends.
pub Returns-bind_done {ℓ} :
    {A B : Type ℓ} (m : Run A) (f : A → Run B) (P : A → Type 0) (Q : B → Type 0)
    → Returns m P
    → ((a : A) → m ≡ done a → P a → Returns (f a) Q)
    → Returns (m >>= f) Q
Returns-bind_done (done a) f P Q h k = k a refl h
Returns-bind_done (fault e) f P Q h k = absurd h

pub Returns-mono {ℓ} :
    {A : Type ℓ} (m : Run A) (P Q : A → Type 0) → Returns m P → ((a : A) → P a → Q a) → Returns m Q
Returns-mono (done a) P Q h k = k a h
Returns-mono (fault e) P Q h k = absurd h

pub Returns-done {ℓ} :
    {A : Type ℓ} {m : Run A} {a : A} (P : A → Type 0) → m ≡ done a → P a → Returns m P
Returns-done P e h = rw e h

pub done_of_Returns {ℓ} :
    {A : Type ℓ} (m : Run A) (P : A → Type 0) → Returns m P → (a : A) × (m ≡ done a) × P a
done_of_Returns (done a) P h = (a, refl, h)
done_of_Returns (fault e) P h = absurd h

pub if-Returns {ℓ} :
    {A : Type ℓ} (m k : Run A) (P : A → Type 0) (b : Bool)
    → Returns m P
    → Returns k P
    → Returns (if b then m else k) P
if-Returns m k P true h g = h
if-Returns m k P false h g = g

-- The run ends without a fault.
abbrev pub Ends {ℓ} : {A : Type ℓ} → Run A → Type 0
Ends m = Returns m (λ a. Unit)

pub Ends-bind :
    {A B : Type 0} (m : Run A) (f : A → Run B) → Ends m → ((a : A) → Ends (f a)) → Ends (m >>= f)
Ends-bind m f h k = Returns-bind m f (λ a. Unit) (λ b. Unit) h (λ a u. k a)

pub Returns-Ends : {A : Type 0} (m : Run A) (P : A → Type 0) → Returns m P → Ends m
Returns-Ends m P h = Returns-mono m P (λ a. Unit) h (λ a p. tt)

pub if-Ends : {A : Type 0} (b : Bool) (m k : Run A) → Ends m → Ends k → Ends (if b then m else k)
if-Ends true m k h g = h
if-Ends false m k h g = g
