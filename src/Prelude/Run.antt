-- ===== src/Prelude/Run.antt =====
-- Results of code that may fault. `uncaught` is an exception that no handler of the program
-- catches, which ends the process. The others are undefined behaviour: `dangling` is an access
-- through a null pointer or to an object that has been destroyed, `out_of_range` an access to an
-- element that a container does not have, `overflow` a signed result that its type cannot hold.
-- `out_of_fuel` stands for a loop that was given too few rounds.
use mathlib.Core.Path.{◌≡◌, refl}

pub data Fault : Type 0 where
  uncaught dangling out_of_range overflow out_of_fuel : Fault

pub data Result {ℓ} (A : Type ℓ) : Type ℓ where
  ok : A → Result A
  fault : Fault → Result A

infixl 5 ◌>>=◌ ◌>>◌
abbrev pub ◌>>=◌ {ℓ κ} : {A : Type ℓ} {B : Type κ} → Result A → (A → Result B) → Result B
ok a >>= f = f a
fault e >>= f = fault e

abbrev pub ◌>>◌ {ℓ κ} : {A : Type ℓ} {B : Type κ} → Result A → Result B → Result B
m >> k = m >>= λ _. k

pub bind_assoc {ℓ} :
    {A B C : Type ℓ} (r : Result A) (f : A → Result B) (g : B → Result C)
    → ((r >>= f) >>= g) ≡ (r >>= λ a. f a >>= g)
bind_assoc (ok a) f g = refl
bind_assoc (fault e) f g = refl

-- The run ends normally, in a value that satisfies `P`.
abbrev pub Returns {ℓ κ} : {A : Type ℓ} → Result A → (A → Type κ) → Type (ℓ ⊔ κ)
Returns {A} r P = (a : A) × (r ≡ ok a) × P a

-- The run, if it ends normally, ends in a value that satisfies `P`.
abbrev pub Leaves {ℓ κ} : {A : Type ℓ} → (A → Type κ) → Result A → Type κ
Leaves P (ok a) = P a
Leaves P (fault e) = Unit

pub bind-Leaves {ℓ κ} :
    {A B : Type ℓ} (P : A → Type κ) (Q : B → Type κ) (r : Result A) (f : A → Result B)
    → Leaves P r
    → ((a : A) → P a → Leaves Q (f a))
    → Leaves Q (r >>= f)
bind-Leaves P Q (ok a) f p q = q a p
bind-Leaves P Q (fault e) f p q = tt
