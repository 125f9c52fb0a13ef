-- ===== src/Conf/Carriers.antt =====
-- The map of power backoffs: four bits for each carrier, eight carriers in each word of the
-- document, and its calibration (Is_notched_carrier and conf_file_modify_psd_cali).
use Prim.Native.Nat.{bit_or}
use tulum_utils.Base.{
  ℕ, zero, suc, ◌+◌, ◌-◌, ◌*◌, ◌/◌, ◌%◌, ◌^◌, Bool, true, false, not, ◌&&◌, ◌||◌, ltb, leb, ◌==◌,
  if◌then◌else◌, Option, none, some, ◌>>=◌, List, [], ◌∷◌, ◌++◌, take, drop, get_or, get_elem?,
  replace_at,
}
use tulum_utils.Base.Int.{ℤ, pos, negsuc}

-- NotchCarrierRange: the first and the last carrier.
abbrev pub NotchCarrierRange : Type 0
NotchCarrierRange = ℕ × ℕ

abbrev pub notched_ranges : List NotchCarrierRange
notched_ranges =
    (0, 85)
    ∷ (140, 167)
    ∷ (215, 225)
    ∷ (283, 302)
    ∷ (410, 419)
    ∷ (570, 591)
    ∷ (737, 748)
    ∷ (857, 882)
    ∷ (1016, 1027)
    ∷ (1144, 1228)
    ∷ (3529, 4095)
    ∷ []

abbrev pub in_ranges : ℕ → List NotchCarrierRange → Bool
in_ranges idx [] = false
in_ranges idx ((first, last) ∷ ranges) = (leb first idx && leb idx last) || in_ranges idx ranges

-- PSD_Notched is 15. The loop looks at six of the ranges.
unfoldable pub is_notched_carrier : ℕ → ℕ → Bool
is_notched_carrier idx backoff =
    if backoff == 15 then true else in_ranges idx (take 6 notched_ranges)

-- The eight backoffs in a word, the highest first.
abbrev pub word_backoffs : ℕ → List ℕ
word_backoffs w =
    w / 268435456 % 16
    ∷ w / 16777216 % 16
    ∷ w / 1048576 % 16
    ∷ w / 65536 % 16
    ∷ w / 4096 % 16
    ∷ w / 256 % 16
    ∷ w / 16 % 16
    ∷ w % 16
    ∷ []

abbrev pub unpack : List ℕ → List ℕ
unpack [] = []
unpack (w ∷ ws) = word_backoffs w ++ unpack ws

-- Even, from -28 to 28, and not 0.
unfoldable pub is_compensation : ℤ → Bool
is_compensation (pos n) = n % 2 == 0 && leb n 28 && not (n == 0)
is_compensation (negsuc n) = suc n % 2 == 0 && leb (suc n) 28

-- tmp_PowerBackoff of at least 0, cut to 14.
unfoldable pub at_most_14 : ℕ → ℕ
at_most_14 n = if leb 15 n then 14 else n

-- backoff - value / 2, cut to what is from 0 to 14.
unfoldable pub compensated : ℕ → ℤ → ℕ
compensated backoff (pos n) = if ltb backoff (n / 2) then 0 else at_most_14 (backoff - n / 2)
compensated backoff (negsuc n) = at_most_14 (backoff + suc n / 2)

-- One carrier; one that the map does not have faults.
unfoldable pub compensate_carrier : ℤ → ℕ → List ℕ → Option (List ℕ)
compensate_carrier value j backoffs = do
  backoff ← get_elem? backoffs j
  some (
      if is_notched_carrier j backoff
      then backoffs
      else replace_at j (compensated backoff value) backoffs)

-- `n` carriers from `j` on.
unfoldable pub compensate_carriers : ℤ → ℕ → ℕ → List ℕ → Option (List ℕ)
compensate_carriers value zero j backoffs = some backoffs
compensate_carriers value (suc n) j backoffs = do
  rest ← compensate_carrier value j backoffs
  compensate_carriers value n (suc j) rest

-- The loop from first_idx to second_idx; below 0 there is no carrier.
unfoldable pub compensate_range : ℤ → ℤ → ℤ → List ℕ → Option (List ℕ)
compensate_range value (pos first) (pos second) backoffs =
    compensate_carriers value (suc second - first) first backoffs
compensate_range value (pos first) (negsuc second) backoffs = some backoffs
compensate_range value (negsuc first) (pos second) backoffs = none
compensate_range value (negsuc first) (negsuc second) backoffs =
    if ltb first second then some backoffs else none

-- backoff << shift is an int, which becomes an unsigned long of `long_bits` bits with its sign.
abbrev pub shifted : ℕ → ℕ → ℕ → ℕ
shifted long_bits backoff shift =
    let v = backoff * 2 ^ shift in if ltb v (2 ^ 31) then v else v + (2 ^ long_bits - 2 ^ 32)

-- The rest of a word, from place `j` of its eight on.
unfoldable pub or_backoffs : ℕ → ℕ → ℕ → ℕ → List ℕ → ℕ
or_backoffs long_bits tmp_amp_map zero j backoffs = tmp_amp_map
or_backoffs long_bits tmp_amp_map (suc n) j backoffs =
    or_backoffs long_bits
      (bit_or tmp_amp_map (shifted long_bits (get_or backoffs 0 0) ((7 - j) * 4))) n (suc j)
      (drop 1 backoffs)

-- The words of the map. The variable tmp_amp_map is not set before the first; `tmp_amp_map` is what
-- it holds then, and that it keeps its place from one round to the next is assumed.
unfoldable pub pack : ℕ → ℕ → ℕ → List ℕ → List ℕ
pack long_bits tmp_amp_map zero backoffs = []
pack long_bits tmp_amp_map (suc n) backoffs =
    or_backoffs long_bits tmp_amp_map 8 0 backoffs ∷ pack long_bits 0 n (drop 8 backoffs)
