-- ===== src/Base/BitOr.antt =====
-- The native `bit_or` of numbers that have no binary digit in common.
use Prim.Native.Nat.{ℕ, zero, suc, ◌+◌, ◌*◌, ◌/◌, ◌≤◌, ◌<◌, max, bit_or, digits, bit_or-bitwise}
use mathlib.Core.Path.{◌≡◌, refl, ◌∙◌}
use native.Mathlib.Omega.{arith}

abbrev or_digits : ℕ → ℕ → ℕ → ℕ
or_digits n a b = digits (λ b. b) max n a b

-- a * 2^k
abbrev pub shift_left : ℕ → ℕ → ℕ
shift_left zero a = a
shift_left (suc k) a = 2 * shift_left k a

-- By the digits: below place `k` only `b` has any, and from there on only `x`.
or_digits_lem :
    (n x k a b : ℕ) → x ≡ shift_left k a → b < shift_left k 1 → x ≤ n → or_digits n x b ≡ x + b
or_digits_lem zero zero k a b e h fuel = omega arith
or_digits_lem (suc n) zero k a b e h fuel = omega arith
or_digits_lem zero (suc x) k a b e h fuel = absurd (omega arith)
or_digits_lem (suc n) (suc x) zero a b e h fuel =
    omega
      (arith, or_digits_lem n (suc x / 2) 0 (suc x / 2) (b / 2) refl (omega arith) (omega arith))
or_digits_lem (suc n) (suc x) (suc k) a b e h fuel =
    omega (arith, or_digits_lem n (suc x / 2) k a (b / 2) (omega arith) (omega arith) (omega arith))

pub bit_or_lem : (k a b : ℕ) → b < shift_left k 1 → bit_or (shift_left k a) b ≡ shift_left k a + b
bit_or_lem k a b h =
    bit_or-bitwise (shift_left k a) b
    ∙ or_digits_lem (shift_left k a) (shift_left k a) k a b refl h (omega arith)
