-- ===== src/Tests/Calibration.antt =====
-- The calibration of carriers 86 and 87 by the file "(86-87,4)".
use tulum_utils.Base.{
  ℕ, ◌≡◌, ◌||◌, ◌&&◌, refl, arith, ltb, ◌==◌, some, List, [], ◌∷◌, ◌++◌, Bytes, codes, length,
  get_elem?, replicate,
}
use tulum_utils.Base.Int.{pos}
use tulum_utils.Libc.Decimal.{scan_int}
use tulum_utils.Libc.Tokens.{tokens, fgets_lines}
use tulum_utils.Conf.Fields.{done}
use tulum_utils.Conf.Carriers.{
  is_notched_carrier, in_ranges, notched_ranges, compensate_carrier, compensate_carriers,
  compensate_range, compensated, at_most_14, is_compensation, pack, or_backoffs,
}
use tulum_utils.Conf.Compensation.{is_notched_carrier_lem}
use tulum_utils.Conf.Calibration.{
  Line, unset, calibrate_file, calibrate_lines, calibrate_range, scan_line, range_texts, read_line,
  store_tokens, remove_char, append_words, modify_psd_cali,
}
use tulum_utils.Conf.Entries.{Entry, AllRead, after_entries, calibrate_lines_entries}
use tulum_utils.Conf.Kept.{AllKept, calibrate_file-AllKept}
use tulum_utils.Conf.Saved.{map_of, map_of-modify_psd_cali}
use tulum_utils.Tests.Conf.{
  Doc, small_json, small_json-IsLawful, context, with_array, child, size, element, append, empty,
}

abbrev file_text : Bytes
file_text = codes "(86-87,4)\n"

-- Carriers 0 to 85 are notched; 86 is switched off by its backoff of 15, and 87 has 5.
abbrev old_map : List ℕ
old_map = replicate 86 2 ++ (15 ∷ 5 ∷ [])

abbrev new_map : List ℕ
new_map = replicate 86 2 ++ (15 ∷ 3 ∷ [])

calibrate_file-AllKept_example : AllKept old_map new_map
unfolding calibrate_file calibrate_lines calibrate_range scan_line range_texts read_line
    store_tokens remove_char tokens fgets_lines scan_int is_compensation compensate_range
    compensate_carriers compensate_carrier is_notched_carrier compensated at_most_14 replicate
calibrate_file-AllKept_example = calibrate_file-AllKept file_text old_map new_map refl

is_notched_carrier_example :
    is_notched_carrier 740 3 ≡ (3 == 15 || (ltb 740 737 && in_ranges 740 notched_ranges))
is_notched_carrier_example = is_notched_carrier_lem 740 3

abbrev one_line : Line
one_line = record { carrier_range = some (codes "86-87"); compensate_text = some (codes "4\n") }

abbrev one_entry : Entry
one_entry = record { first = 86; last = 87; value = pos 4 }

one_line-AllRead : AllRead 88 (one_line ∷ []) (one_entry ∷ [])
unfolding tokens scan_int
one_line-AllRead = (
  record {
    range = codes "86-87";
    first_text = codes "86";
    last_text = codes "87";
    value_text = codes "4\n";
    range_eq = refl;
    tokens_eq = refl;
    value_eq = refl;
    first_eq = refl;
    last_eq = refl;
    number_eq = refl;
  },
  omega arith,
  omega arith,
  tt,
)

calibrate_lines_example :
    (bs' : List ℕ) × (calibrate_lines (one_line ∷ []) unset old_map ≡ some bs')
    × (length bs' ≡ length old_map)
    × ((i b : ℕ)
        → get_elem? old_map i ≡ some b
        → get_elem? bs' i ≡ some (after_entries (one_entry ∷ []) i b))
unfolding replicate
calibrate_lines_example =
    calibrate_lines_entries (one_line ∷ []) (one_entry ∷ []) unset old_map one_line-AllRead

-- Eleven words of the document: the last has the carriers 80 to 87.
abbrev old_doc : Doc
old_doc = with_array (replicate 10 0x22222222 ++ (0x222222F5 ∷ []))

abbrev new_doc : Doc
new_doc = with_array (replicate 10 0x22222222 ++ (0x222222F3 ∷ []))

map_of-modify_psd_cali_example :
    (modify_psd_cali small_json
        (λ name. some file_text)
        32
        0
        context
        (codes "calibration.conf")
        old_doc
      ≡ some (done new_doc))
    × (map_of small_json small_json-IsLawful context new_doc ≡ new_map)
unfolding calibrate_file calibrate_lines calibrate_range scan_line range_texts read_line
    store_tokens remove_char tokens fgets_lines scan_int is_compensation compensate_range
    compensate_carriers compensate_carrier is_notched_carrier compensated at_most_14 replicate child
    size element append empty append_words pack or_backoffs
map_of-modify_psd_cali_example =
    map_of-modify_psd_cali small_json small_json-IsLawful (λ name. some file_text) context
      (codes "calibration.conf") file_text "am_infile" new_map old_doc new_doc refl refl refl refl
