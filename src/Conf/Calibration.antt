-- ===== src/Conf/Calibration.antt =====
-- The calibration of the map of backoffs by a file of lines "(first-last,value)":
-- conf_file_modify_psd_cali, with removeChar.
use tulum_utils.Base.{
  ℕ, not, leb, ◌==◌, if◌then◌else◌, Option, none, some, ◌>>=◌, List, [], ◌∷◌, Bytes, length, select,
}
use tulum_utils.Base.Int.{ℤ}
use tulum_utils.Libc.Decimal.{scan_int}
use tulum_utils.Libc.Tokens.{tokens, fgets_lines}
use tulum_utils.Conf.Json.{Json}
use tulum_utils.Conf.Fields.{Context, Outcome, done, failed}
use tulum_utils.Conf.Carriers.{unpack, pack, is_compensation, compensate_range}
use tulum_utils.Conf.Print.{words_from}

-- What remains of the text without the character.
unfoldable pub remove_char : ℕ → Bytes → Bytes
remove_char garbage str = select (λ c. not (c == garbage)) str

-- The elements of carrier_range_array and compensate_value_array for a line. An element that is not
-- written stays unset.
pub record Line : Type 0 where
  pub carrier_range : Option Bytes
  pub compensate_text : Option Bytes

-- The loop over the tokens: the odd ones go to the range, the even ones to the value.
unfoldable pub store_tokens : List Bytes → Line → Line
store_tokens [] l = l
store_tokens (a ∷ []) l = record l { carrier_range = some a }
store_tokens (a ∷ b ∷ rest) l =
    store_tokens rest (record { carrier_range = some a; compensate_text = some b })

unfoldable pub read_line : Bytes → Line
unfolding store_tokens remove_char
read_line str =
    store_tokens (tokens 44 (remove_char 41 (remove_char 40 str)))
      (record { carrier_range = none; compensate_text = none })

abbrev pub read_all : List Bytes → List Line
read_all [] = []
read_all (str ∷ rest) = read_line str ∷ read_all rest

-- The variables first_idx, second_idx and compensate_value, which are unset before the first line.
pub record Variables : Type 0 where
  pub first_idx : Option ℤ
  pub second_idx : Option ℤ
  pub compensate_value : Option ℤ

abbrev pub unset : Variables
unset = record { first_idx = none; second_idx = none; compensate_value = none }

-- sscanf with %d leaves the variable alone if there is no number.
abbrev pub scanned : Bytes → Option ℤ → Option ℤ
scanned text old = elim (scan_int text) [ none ↦ old | some n ↦ some n ]

-- The texts of the first and the last carrier; strcpy of a token that is not there faults.
unfoldable pub range_texts : List Bytes → Option (Bytes × Bytes)
range_texts (first ∷ second ∷ rest) = some (first, second)
range_texts _ = none

-- A line with a value that is not permitted is reported and passed over. Reading what is unset faults.
unfoldable pub calibrate_range : Variables → List ℕ → Option (List ℕ)
calibrate_range v backoffs = do
  value ← v.compensate_value
  if is_compensation value
      then (do
        first ← v.first_idx
        second ← v.second_idx
        compensate_range value first second backoffs)
      else some backoffs

unfoldable pub scan_line : Line → Variables → Option Variables
scan_line l v = do
  range ← l.carrier_range
  texts ← range_texts (tokens 45 range)
  value ← l.compensate_text
  some (record {
    first_idx = scanned texts.0 v.first_idx;
    second_idx = scanned texts.1 v.second_idx;
    compensate_value = scanned value v.compensate_value;
  })

unfoldable pub calibrate_lines : List Line → Variables → List ℕ → Option (List ℕ)
calibrate_lines [] v backoffs = some backoffs
calibrate_lines (l ∷ lines) v backoffs = do
  v' ← scan_line l v
  backoffs' ← calibrate_range v' backoffs
  calibrate_lines lines v' backoffs'

-- The arrays have room for 4096 lines; a further line is outside of them.
unfoldable pub calibrate_file : Bytes → List ℕ → Option (List ℕ)
calibrate_file file backoffs =
    let lines = read_all (fgets_lines 20 file) in
    if leb (length lines) 4096 then calibrate_lines lines unset backoffs else none

-- `open_file` is fopen with fread of a whole file. An unsigned long has `long_bits` bits, and `garbage`
-- is what the unset variable tmp_amp_map holds.
module _ (J : Json) (open_file : Bytes → Option Bytes) (long_bits garbage : ℕ) where
  open J use {Doc, Ref, of_int, get_array, array_count, append_number, clear}

  unfoldable pub append_words : Option Ref → List ℕ → Doc → Option Doc
  append_words array [] d = some d
  append_words array (w ∷ ws) d = append_number d array (of_int w) >>= append_words array ws

  abbrev pub save_map : Option Ref → ℕ → Doc → List ℕ → Outcome Doc
  save_map array count d backoffs =
      elim (append_words array (pack long_bits garbage count backoffs) (clear d array)) [
        | none ↦ failed 1
        | some d' ↦ done d'
      ]

  -- none is a fault.
  unfoldable pub modify_psd_cali : Context Ref → Bytes → Doc → Option (Outcome Doc)
  modify_psd_cali ctx filename d = elim (open_file filename) [
    | none ↦ some (failed 2)
    | some file ↦
        let array = get_array d ctx.inka_phy_obj "am_infile" in
        let count = array_count d array in
        calibrate_file file (unpack (words_from J d array 0 count)) >>= λ backoffs.
        some (save_map array count d backoffs)
  ]
