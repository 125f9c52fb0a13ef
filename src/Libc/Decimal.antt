-- ===== src/Libc/Decimal.antt =====
-- Decimal numbers as printf writes them, and as atoi and sscanf read them. A number that does not
-- fit an int is undefined in C; here it is read as it stands.
use tulum_utils.Base.{
  ℕ, zero, suc, ◌+◌, ◌-◌, ◌*◌, ◌/◌, ◌%◌, ◌<◌, ◌≤◌, ◌≡◌, refl, ap, sym, ◌∙◌, arith, Bool, true,
  false, ◌&&◌, ltb, leb, ◌==◌, if◌then◌else◌, Option, none, some, [], ◌∷◌, Bytes, Bool-cases, inl,
  inr,
}
use tulum_utils.Base.Int.{ℤ, pos, negsuc}
use tulum_utils.Libc.Hex.{skip_space}

-- The digits of a number before a text; the fuel of `decimal` is more than there are digits.
digits : ℕ → ℕ → Bytes → Bytes
digits zero n out = out
digits (suc k) n out = elim (ltb n 10) [
  | true ↦ (48 + n) ∷ out
  | false ↦ digits k (n / 10) ((48 + n % 10) ∷ out)
]

-- The conversion %u.
unfoldable pub decimal : ℕ → Bytes
unfolding digits
decimal n = digits (suc n) n []

-- The conversion %d.
unfoldable pub print_int : ℤ → Bytes
unfolding decimal
print_int (pos n) = decimal n
print_int (negsuc n) = 45 ∷ decimal (suc n)

abbrev is_digit : ℕ → Bool
is_digit c = leb 48 c && leb c 57

dec_digits : ℕ → Bytes → ℕ
dec_digits v [] = v
dec_digits v (c ∷ s) = if is_digit c then dec_digits (10 * v + (c - 48)) s else v

dec_number : Bytes → Option ℕ
dec_number [] = none
dec_number (c ∷ s) = if is_digit c then some (dec_digits (c - 48) s) else none

abbrev negative : ℕ → ℤ
negative zero = pos 0
negative (suc n) = negsuc n

signed : Bool → Option ℕ → Option ℤ
signed minus none = none
signed minus (some v) = some (if minus then negative v else pos v)

scan_signed : Bytes → Option ℤ
scan_signed [] = none
scan_signed (c ∷ s) =
    if c == 45
    then signed true (dec_number s)
    else if c == 43
    then signed false (dec_number s)
    else signed false (dec_number (c ∷ s))

-- sscanf with the one conversion %d.
unfoldable pub scan_int : Bytes → Option ℤ
unfolding scan_signed signed dec_number dec_digits
scan_int s = scan_signed (skip_space s)

or_zero : Option ℤ → ℤ
or_zero none = pos 0
or_zero (some n) = n

unfoldable pub atoi : Bytes → ℤ
unfolding or_zero scan_int
atoi s = or_zero (scan_int s)

dec_digits-digits :
    (k n : ℕ) (out : Bytes) → n < k → dec_digits 0 (digits k n out) ≡ dec_digits n out
unfolding digits dec_digits
dec_digits-digits zero n out h = absurd (omega arith)
dec_digits-digits (suc k) n out h =
    ground (arith, dec_digits-digits k (n / 10) ((48 + n % 10) ∷ out))

-- The digits begin with a digit.
digits_head :
    (k n : ℕ) (out : Bytes)
    → n < k
    → (c : ℕ) × (t : Bytes) × (digits k n out ≡ c ∷ t) × (48 ≤ c) × (c ≤ 57)
unfolding digits
digits_head zero n out h = absurd (omega arith)
digits_head (suc k) n out h = elim (Bool-cases (ltb n 10)) [
  | inl small ↦ (48 + n, out, rw (digits, small) refl, omega arith, ground arith)
  | inr large ↦
      let (c, t, e, least, most) = digits_head k (n / 10) ((48 + n % 10) ∷ out) (ground arith) in
      (c, t, rw (digits, large) e, least, most)
]

-- A text that is a number.
record IsNumber (n : ℕ) (s : Bytes) : Type 0 where
  first : ℕ
  others : Bytes
  text : s ≡ first ∷ others
  least : 48 ≤ first
  most : first ≤ 57
  value : dec_digits (first - 48) others ≡ n

decimal-IsNumber : (n : ℕ) → IsNumber n (decimal n)
unfolding decimal dec_digits
decimal-IsNumber n =
    let (c, t, e, least, most) = digits_head (suc n) n [] (omega arith) in
    let exact : dec_digits 0 (c ∷ t) ≡ n =
      ap (dec_digits 0) (sym e) ∙ dec_digits-digits (suc n) n [] (omega arith) in
    record { first = c; others = t; text = e; least = least; most = most; value = ground arith }

-- What is printed of an integer is read as that integer.
pub scan_int-print_int : (n : ℤ) → scan_int (print_int n) ≡ some n
unfolding scan_int print_int scan_signed dec_number signed
scan_int-print_int (pos n) =
    let number = decimal-IsNumber n in
    rw number.text (ground (arith, number.value, number.least, number.most))
scan_int-print_int (negsuc n) =
    let number = decimal-IsNumber (suc n) in
    rw number.text (ground (arith, number.value, number.least, number.most))

pub atoi-print_int : (n : ℤ) → atoi (print_int n) ≡ n
unfolding atoi or_zero
atoi-print_int n = rw (scan_int-print_int n) refl
