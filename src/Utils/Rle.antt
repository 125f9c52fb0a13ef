-- ===== src/Utils/Rle.antt =====
-- The run-length code that hpav_dump_tonemap (hpav_test/libhpav/hpav_utils.c) decodes into its
-- modulation list before it prints it.
pub mod Step
pub mod Runs
use tulum_utils.Base.{
  ℕ, ◌+◌, ◌-◌, ◌*◌, ◌/◌, ◌%◌, Bool, true, false, leb, ◌==◌, if◌then◌else◌, Bytes, byte_at, List, [],
  ◌∷◌, ◌++◌, Option, some, none, ◌>>=◌, length, replicate, copy_out,
}

-- `none` is -1. `modulation_list` holds the entries written so far.
pub record RleState : Type 0 where
  pub modulation : Option ℕ
  pub rle : Option ℕ
  pub modulation_list : List ℕ

abbrev pub rle_start : RleState
rle_start = record { modulation = none; rle = none; modulation_list = [] }

-- IS_MODULATION_FIELD; the other values of four bits are IS_NIBBLE_FIELD.
abbrev pub is_modulation_field : ℕ → Bool
is_modulation_field x = leb x 8

-- GET_RLE_LEN, for x of at least 8 and y of at least 9
unfoldable pub get_rle_len : ℕ → ℕ → ℕ
get_rle_len x y = (x - 8) * 7 + (y - 9 + 3)

-- The entry that a modulation is written as; -1 becomes the byte 255.
abbrev pub entry : Option ℕ → ℕ
entry none = 255
entry (some v) = v

-- sizeof(modulation_list): MTK_POSSIBLE_CARRIERS_MAX + 1
abbrev pub list_size : ℕ
list_size = 4097

-- The loop that writes the modulation so many times; a write past the array faults.
unfoldable pub write_entries : RleState → ℕ → Option (List ℕ)
write_entries s n =
    if leb (length s.modulation_list + n) list_size
    then some (s.modulation_list ++ replicate n (entry s.modulation))
    else none

-- A modulation field: what is pending is written, and the field waits for its length. A length
-- without a modulation stays.
unfoldable pub modulation_step : Option ℕ → Option ℕ → RleState → ℕ → Option RleState
modulation_step none rle s x = some (record s { modulation = some x })
modulation_step (some v) none s x = do
  list ← write_entries s 1
  some (record { modulation = some x; rle = none; modulation_list = list })
modulation_step (some v) (some r) s x = do
  list ← write_entries s (get_rle_len 8 r)
  some (record { modulation = some x; rle = none; modulation_list = list })

-- A length field: the first waits, the second ends the run.
unfoldable pub nibble_step : Option ℕ → RleState → ℕ → Option RleState
nibble_step none s x = some (record s { rle = some x })
nibble_step (some r) s x = do
  list ← write_entries s (get_rle_len x r)
  some (record { modulation = none; rle = none; modulation_list = list })

unfoldable pub rle_step : RleState → ℕ → Option RleState
rle_step s x =
    if is_modulation_field x then modulation_step s.modulation s.rle s x else nibble_step s.rle s x

unfoldable pub rle_steps : RleState → List ℕ → Option RleState
rle_steps s [] = some s
rle_steps s (x ∷ xs) = do s' ← rle_step s x; rle_steps s' xs

-- GET_LOW_NIBBLE and GET_HIGH_NIBBLE of each byte, the low one first.
abbrev pub nibbles : Bytes → List ℕ
nibbles [] = []
nibbles (b ∷ bytes) = b % 16 ∷ b / 16 % 16 ∷ nibbles bytes

-- The half byte at the end is written at once, and what is pending is not.
unfoldable pub last_nibble : RleState → ℕ → Option (List ℕ)
last_nibble s x =
    if is_modulation_field x
    then write_entries (record s { modulation = some x }) 1
    else elim s.rle [
      | none ↦ write_entries s (get_rle_len 8 x)
      | some r ↦ write_entries s (get_rle_len x r)
    ]

-- The modulation list of `num_bits` bits.
unfoldable pub decode_tonemap : Bytes → ℕ → Option (List ℕ)
decode_tonemap bitfield num_bits = do
  whole ← copy_out 0 (num_bits / 8) bitfield
  s ← rle_steps rle_start (nibbles whole)
  if num_bits % 8 == 0
      then some s.modulation_list
      else (do half ← copy_out (num_bits / 8) 1 bitfield; last_nibble s (byte_at half 0 % 16))
