-- ===== src/Channel/Run.antt =====
-- Runs of code that waits for packets: it returns, faults, or has used up the rounds it is given.
use tulum_utils.Base.{Option, none, some}

pub data Run {ℓ} (A : Type ℓ) : Type ℓ where
  returns : A → Run A
  fault : Run A
  no_fuel : Run A

infixl 5 ◌>>=◌
abbrev pub ◌>>=◌ {ℓ κ} : {A : Type ℓ} {B : Type κ} → Run A → (A → Run B) → Run B
returns a >>= f = f a
fault >>= f = fault
no_fuel >>= f = no_fuel

abbrev pub lift {ℓ} : {A : Type ℓ} → Option A → Run A
lift none = fault
lift (some a) = returns a
