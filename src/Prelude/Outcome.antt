-- ===== src/Prelude/Outcome.antt =====
-- What running kernel code can come to: a value; `panic`, a failed assert or a call of panic();
-- `fault`, undefined behaviour: an access outside the object that the code means, or a signed
-- int that overflows; `timeout`, a loop or a call chain that used up the rounds that its model gives it.
use mathlib.Core.Bool.{Bool, true, false}
use mathlib.Core.Option.{Option, none, some}

pub data Run {ℓ} (A : Type ℓ) : Type ℓ where
  ok : A → Run A
  panic : Run A
  fault : Run A
  timeout : Run A

infixl 5 ◌>>=◌ ◌>>◌
abbrev pub ◌>>=◌ {ℓ κ} : {A : Type ℓ} {B : Type κ} → Run A → (A → Run B) → Run B
ok a >>= f = f a
panic >>= f = panic
fault >>= f = fault
timeout >>= f = timeout

abbrev pub ◌>>◌ {ℓ} : {B : Type ℓ} → Run (Unit {0}) → Run B → Run B
m >> k = m >>= λ _. k

-- assert(b)
abbrev pub assert : Bool → Run (Unit {0})
assert true = ok tt
assert false = panic

-- A read that the option says is in range.
abbrev pub in_range {ℓ} : {A : Type ℓ} → Option A → Run A
in_range none = fault
in_range (some a) = ok a
