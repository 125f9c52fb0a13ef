-- ===== src/Base/Memory.antt =====
-- Byte strings, copies out of them, and little-endian words.
use Prim.Native.Nat.{ℕ, ◌+◌, ◌*◌, ◌/◌, ◌%◌, ◌≤◌, ◌<◌}
use Prim.Native.Char.{code}
use Prim.Native.String.{String}
use mathlib.Core.Path.{◌≡◌, refl}
use mathlib.Core.Bool.{Bool, true, false, ◌&&◌}
use mathlib.Core.Logic.{◌↔◌}
use mathlib.Core.List.{List, [], ◌∷◌, ◌++◌}
use mathlib.Core.Option.{Option, none, some}
use native.Mathlib.Omega.{arith}
use tulum_utils.Base.Tests.{leb, ◌==◌, if◌then◌else◌}
use tulum_utils.Base.Lists.{length, take, drop, get_or, length-take, length-drop}

abbrev pub Bytes : Type 0
Bytes = List ℕ

abbrev pub IsByte : ℕ → Type 0
IsByte b = b < 256

-- The bytes of a text, which is ASCII.
abbrev pub codes : String → Bytes
codes String.[] = []
codes (String.◌∷◌ c s) = code c ∷ codes s

-- The byte at an offset.
abbrev pub byte_at : Bytes → ℕ → ℕ
byte_at b i = get_or b i 0

-- The `n` bytes from offset `i`, as far as there are any.
abbrev pub slice : ℕ → ℕ → Bytes → Bytes
slice i n b = take n (drop i b)

-- memcpy of `n` bytes out of an object, from offset `i`; outside the object it faults.
unfoldable pub copy_out : ℕ → ℕ → Bytes → Option Bytes
copy_out i n b = if leb (i + n) (length b) then some (slice i n b) else none

-- memcpy of `src` onto the start of an object; past the end of the object it faults.
unfoldable pub copy_onto : Bytes → Bytes → Option Bytes
copy_onto src b = if leb (length src) (length b) then some (src ++ drop (length src) b) else none

-- memcmp(a, b, n) == 0, on two strings of one length.
unfoldable pub bytes_eq : Bytes → Bytes → Bool
bytes_eq [] [] = true
bytes_eq (x ∷ xs) (y ∷ ys) = x == y && bytes_eq xs ys
bytes_eq _ _ = false

pub bytes_eq_iff : (a b : Bytes) → (bytes_eq a b ≡ true) ↔ (a ≡ b)
unfolding bytes_eq
bytes_eq_iff (x ∷ a) (y ∷ b) = ground (arith, bytes_eq_iff a b)
bytes_eq_iff _ _ = ground arith

pub bytes_eq_refl : (a : Bytes) → bytes_eq a a ≡ true
bytes_eq_refl a = (bytes_eq_iff a a).1 refl

-- A 16-bit word as it lies in memory.
abbrev pub le16 : ℕ → Bytes
le16 w = w % 256 ∷ w / 256 % 256 ∷ []

abbrev pub le16_at : Bytes → ℕ → ℕ
le16_at b i = byte_at b i + 256 * byte_at b (i + 1)

-- A 32-bit word as it lies in memory.
abbrev pub le32 : ℕ → Bytes
le32 w = w % 256 ∷ w / 256 % 256 ∷ w / 65536 % 256 ∷ w / 16777216 % 256 ∷ []

abbrev pub le32_at : Bytes → ℕ → ℕ
le32_at b i = le16_at b i + 65536 * le16_at b (i + 2)

pub copy_out_lem : (i n : ℕ) (b : Bytes) → i + n ≤ length b → copy_out i n b ≡ some (slice i n b)
unfolding copy_out
copy_out_lem i n b h = ground arith

pub copy_out_fault : (i n : ℕ) (b : Bytes) → length b < i + n → copy_out i n b ≡ none
unfolding copy_out
copy_out_fault i n b h = ground arith

pub length-slice : (i n : ℕ) (b : Bytes) → i + n ≤ length b → length (slice i n b) ≡ n
length-slice i n b h = omega (arith, length-take n (drop i b), length-drop i b)

pub copy_onto_lem :
    (src b : Bytes) → length src ≤ length b → copy_onto src b ≡ some (src ++ drop (length src) b)
unfolding copy_onto
copy_onto_lem src b h = ground arith

pub copy_onto_fault : (src b : Bytes) → length b < length src → copy_onto src b ≡ none
unfolding copy_onto
copy_onto_fault src b h = ground arith
