-- ===== src/Base/BitXor.antt =====
-- The native `bit_xor` of bytes is a byte.
use Prim.Native.Nat.{ℕ, zero, suc, ◌/◌, ◌%◌, ◌<◌, bit_xor, differ, digits, bit_xor-bitwise}
use mathlib.Core.Path.{subst, sym}
use native.Mathlib.Omega.{arith}
use tulum_utils.Base.BitOr.{shift_left}

differ_bound : (a b : ℕ) → a < 2 → b < 2 → differ a b < 2
differ_bound zero b h k = k
differ_bound (suc zero) zero h k = omega arith
differ_bound (suc zero) (suc zero) h k = omega arith
differ_bound (suc zero) (suc (suc b)) h k = absurd (omega arith)
differ_bound (suc (suc a)) b h k = absurd (omega arith)

xor_digits_bound :
    (n k x y : ℕ)
    → x < shift_left k 1
    → y < shift_left k 1
    → digits (λ b. b) differ n x y < shift_left k 1
xor_digits_bound zero k x y h g = g
xor_digits_bound (suc n) k zero y h g = g
xor_digits_bound (suc n) zero (suc x) y h g = absurd (omega arith)
xor_digits_bound (suc n) (suc k) (suc x) y h g = omega (
  arith,
  xor_digits_bound n k (suc x / 2) (y / 2) (omega arith) (omega arith),
  differ_bound (suc x % 2) (y % 2) (omega arith) (omega arith),
)

pub bit_xor_bound : (x y : ℕ) → x < 256 → y < 256 → bit_xor x y < 256
bit_xor_bound x y h g =
    subst (λ n. n < 256) (sym (bit_xor-bitwise x y)) (xor_digits_bound x 8 x y h g)
