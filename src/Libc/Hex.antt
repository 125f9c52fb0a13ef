-- ===== src/Libc/Hex.antt =====
-- Hexadecimal bytes as sprintf writes them and sscanf reads them.
use tulum_utils.Base.{
  ℕ, zero, suc, ◌+◌, ◌-◌, ◌*◌, ◌/◌, ◌%◌, ◌^◌, ◌<◌, ◌≡◌, refl, ◌⊎◌, inl, inr, arith, Bool, true,
  false, ◌&&◌, ◌||◌, ltb, leb, ◌==◌, ==_refl, if◌then◌else◌, Option, none, some, [], ◌∷◌, ◌++◌,
  Bytes, IsByte, All, length, drop, ap, ◌∙◌, Option-cases,
}
use mathlib.Core.Option.{some_inj}

-- isspace
abbrev pub is_space : ℕ → Bool
is_space c = c == 32 || (leb 9 c && leb c 13)

abbrev pub skip_space : Bytes → Bytes
skip_space [] = []
skip_space (c ∷ s) = if is_space c then skip_space s else c ∷ s

-- A hexadecimal digit of either case.
abbrev pub digit_value : ℕ → Option ℕ
digit_value c =
    if leb 48 c && leb c 57
    then some (c - 48)
    else if leb 97 c && leb c 102
    then some (c - 87)
    else if leb 65 c && leb c 70
    then some (c - 55)
    else none

-- At most `w` more digits, behind digits of value `v`.
unfoldable pub scan_digits : ℕ → ℕ → Bytes → ℕ × Bytes
scan_digits zero v s = (v, s)
scan_digits (suc w) v [] = (v, [])
scan_digits (suc w) v (c ∷ s) = elim (digit_value c) [
  | none ↦ (v, c ∷ s)
  | some d ↦ scan_digits w (16 * v + d) s
]

-- One to `w` digits.
unfoldable pub scan_number : ℕ → Bytes → Option (ℕ × Bytes)
scan_number zero s = none
scan_number (suc w) [] = none
scan_number (suc w) (c ∷ s) = elim (digit_value c) [
  | none ↦ none
  | some d ↦ some (scan_digits w d s)
]

unfoldable pub has_prefix : Bytes → Bool
has_prefix (z ∷ x ∷ s) = z == 48 && (x == 120 || x == 88)
has_prefix _ = false

unfoldable pub scan_unsigned : ℕ → Bytes → Option (ℕ × Bytes)
scan_unsigned w s =
    if leb 2 w && has_prefix s then scan_number (w - 2) (drop 2 s) else scan_number w s

-- strtoul, whose result is at most 2^64 - 1, cut to a byte.
unfoldable pub to_uchar : Bool → ℕ → ℕ
to_uchar minus v = if ltb v (2 ^ 64) then if minus then (256 - v % 256) % 256 else v % 256 else 255

unfoldable pub cut : Bool → Option (ℕ × Bytes) → Option (ℕ × Bytes)
cut minus none = none
cut minus (some (v, s)) = some (to_uchar minus v, s)

unfoldable pub scan_signed : ℕ → Bytes → Option (ℕ × Bytes)
scan_signed w [] = none
scan_signed w (c ∷ s) =
    if c == 45
    then cut true (scan_unsigned (w - 1) s)
    else if c == 43
    then cut false (scan_unsigned (w - 1) s)
    else cut false (scan_unsigned w (c ∷ s))

-- The conversion %hhx, of a width or of none: the byte and the text behind it, if it matches.
unfoldable pub scan_byte : Option ℕ → Bytes → Option (ℕ × Bytes)
scan_byte none s = let t = skip_space s in scan_signed (length t) t
scan_byte (some w) s = scan_signed w (skip_space s)

-- The characters of the format between two conversions.
unfoldable pub strip : Bytes → Bytes → Option Bytes
strip [] s = some s
strip (c ∷ sep) [] = none
strip (c ∷ sep) (d ∷ s) = if c == d then strip sep s else none

-- sscanf with `k` conversions of bytes: the bytes that it stores, whose number it returns.
unfoldable pub scan_bytes : Bytes → Option ℕ → ℕ → Bytes → Bytes
scan_bytes sep w zero s = []
scan_bytes sep w (suc k) s = elim (scan_byte w s) [
  | none ↦ []
  | some (b, r) ↦ b ∷ (elim (strip sep r) [ none ↦ [] | some t ↦ scan_bytes sep w k t ])
]

-- %x and %X
pub data Case : Type 0 where
  lower upper : Case

abbrev pub hex_digit : Case → ℕ → ℕ
hex_digit lower n = if ltb n 10 then 48 + n else 87 + n
hex_digit upper n = if ltb n 10 then 48 + n else 55 + n

-- The conversions %02x and %02X of a byte.
abbrev pub hex2 : Case → ℕ → Bytes
hex2 k b = hex_digit k (b / 16) ∷ hex_digit k (b % 16) ∷ []

-- Bytes, each behind the separator.
abbrev pub hex_rest : Case → Bytes → Bytes → Bytes
hex_rest k sep [] = []
hex_rest k sep (b ∷ bs) = sep ++ (hex2 k b ++ hex_rest k sep bs)

-- Bytes with the separator between them.
abbrev pub hex_bytes : Case → Bytes → Bytes → Bytes
hex_bytes k sep [] = []
hex_bytes k sep (b ∷ bs) = hex2 k b ++ hex_rest k sep bs

-- The text does not go on with a digit.
abbrev pub IsStop : Bytes → Type 0
IsStop [] = Unit
IsStop (c ∷ s) = digit_value c ≡ none

scan_digits_stop : (w v : ℕ) (s : Bytes) → IsStop s → scan_digits w v s ≡ (v, s)
unfolding scan_digits
scan_digits_stop zero v s h = refl
scan_digits_stop (suc w) v [] h = refl
scan_digits_stop (suc w) v (c ∷ s) h = rw (scan_digits, h) refl

-- What the scanner needs to know of the first of two digits.
record IsPlain (c d : ℕ) : Type 0 where
  value : digit_value c ≡ some d
  black : is_space c ≡ false
  minus : (c == 45) ≡ false
  plus : (c == 43) ≡ false
  small : (c == 120 || c == 88) ≡ false

hex_digit-IsPlain : (k : Case) (d : ℕ) → d < 16 → IsPlain (hex_digit k d) d
hex_digit-IsPlain lower d h = ground arith
hex_digit-IsPlain upper d h = ground arith

to_uchar_lem : (b : ℕ) → b < 256 → to_uchar false (16 * (b / 16) + b % 16) ≡ b
unfolding to_uchar
to_uchar_lem b h = ground arith

scan_signed_lem :
    (w b x y : ℕ) (r : Bytes)
    → b < 256
    → IsPlain x (b / 16)
    → IsPlain y (b % 16)
    → (w ≡ 0) ⊎ IsStop r
    → scan_signed (suc (suc w)) (x ∷ y ∷ r) ≡ some (b, r)
unfolding scan_signed scan_unsigned scan_number scan_digits has_prefix cut
scan_signed_lem w b x y r h high low (inl e) =
    ground (arith, to_uchar_lem b h, high.value, high.minus, high.plus, low.value, low.small)
scan_signed_lem w b x y r h high low (inr stop) = ground (
  arith,
  to_uchar_lem b h,
  scan_digits_stop w (16 * (b / 16) + b % 16) r stop,
  high.value,
  high.minus,
  high.plus,
  low.value,
  low.small,
)

-- A byte ends after two digits, or no digit follows.
pub scan_byte-hex2 :
    (w : Option ℕ) (k : Case) (b : ℕ) (r : Bytes)
    → b < 256
    → (w ≡ some 2) ⊎ ((w ≡ none) × IsStop r)
    → scan_byte w (hex2 k b ++ r) ≡ some (b, r)
unfolding scan_byte
scan_byte-hex2 none k b r h (inl e) = cc
scan_byte-hex2 none k b r h (inr stop) =
    let high = hex_digit-IsPlain k (b / 16) (omega arith) in
    let low = hex_digit-IsPlain k (b % 16) (omega arith) in
    rw high.black (scan_signed_lem (length r) b _ _ r h high low (inr stop.1))
scan_byte-hex2 (some w) k b r h (inl e) =
    let high = hex_digit-IsPlain k (b / 16) (omega arith) in
    let low = hex_digit-IsPlain k (b % 16) (omega arith) in
    rw (high.black, some_inj.0 e) (scan_signed_lem 0 b _ _ r h high low (inl refl))
scan_byte-hex2 (some w) k b r h (inr stop) = cc

-- The width ends a number, or a separator that does not begin with a digit.
unfoldable pub Separates : Bytes → Option ℕ → Type 0
Separates [] w = w ≡ some 2
Separates (c ∷ sep) w = (w ≡ some 2) ⊎ ((w ≡ none) × (digit_value c ≡ none))

strip-append : (sep s : Bytes) → strip sep (sep ++ s) ≡ some s
unfolding strip
strip-append [] s = refl
strip-append (c ∷ sep) s = rw (==_refl c) (strip-append sep s)

hex_rest-IsStop :
    (sep : Bytes) (w : Option ℕ) (k : Case) (bs : Bytes)
    → Separates sep w
    → (w ≡ some 2) ⊎ ((w ≡ none) × IsStop (hex_rest k sep bs))
unfolding Separates
hex_rest-IsStop [] w k bs h = inl h
hex_rest-IsStop (c ∷ sep) w k bs (inl h) = inl h
hex_rest-IsStop (c ∷ sep) w k [] (inr h) = inr (h.0, tt)
hex_rest-IsStop (c ∷ sep) w k (b ∷ bs) (inr h) = inr (h.0, h.1)

scan_bytes_step :
    (sep : Bytes) (w : Option ℕ) (n b : ℕ) (s r t : Bytes)
    → scan_byte w s ≡ some (b, r)
    → strip sep r ≡ some t
    → scan_bytes sep w (suc n) s ≡ b ∷ scan_bytes sep w n t
unfolding scan_bytes
scan_bytes_step sep w n b s r t byte literal = rw (scan_bytes, byte, literal) refl

scan_bytes_last :
    (sep : Bytes) (w : Option ℕ) (b : ℕ) (s r : Bytes)
    → scan_byte w s ≡ some (b, r)
    → scan_bytes sep w 1 s ≡ b ∷ []
unfolding scan_bytes
scan_bytes_last sep w b s r byte =
    rw (scan_bytes, byte) (ap (◌∷◌ b) (grind (arith, Option-cases (strip sep r))))

-- Bytes printed with a separator are scanned as they were.
pub scan_bytes-hex_bytes :
    (sep : Bytes) (w : Option ℕ) (k : Case) (bs : Bytes)
    → Separates sep w
    → All IsByte bs
    → scan_bytes sep w (length bs) (hex_bytes k sep bs) ≡ bs
unfolding scan_bytes
scan_bytes-hex_bytes sep w k [] h all = refl
scan_bytes-hex_bytes sep w k (b ∷ []) h all =
    scan_bytes_last sep w b _ _ (scan_byte-hex2 w k b [] all.0 (hex_rest-IsStop sep w k [] h))
scan_bytes-hex_bytes sep w k (b ∷ c ∷ bs) h all =
    scan_bytes_step sep w (suc (length bs)) b _ _ _
      (scan_byte-hex2 w k b (hex_rest k sep (c ∷ bs)) all.0 (hex_rest-IsStop sep w k (c ∷ bs) h))
      (strip-append sep _)
    ∙ ap (◌∷◌ b) (scan_bytes-hex_bytes sep w k (c ∷ bs) h all.1)
