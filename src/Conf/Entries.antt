-- ===== src/Conf/Entries.antt =====
-- The calibration of conf_file_modify_psd_cali, carrier by carrier.
use tulum_utils.Base.{
  ℕ, suc, ◌-◌, ◌≤◌, ◌<◌, ◌≡◌, refl, sym, subst, ◌∙◌, arith, Bool-cases, inl, inr, if◌then◌else◌,
  Option, some, List, [], ◌∷◌, Bytes, length, get_elem?,
}
use tulum_utils.Base.Int.{ℤ, pos}
use tulum_utils.Libc.Decimal.{scan_int}
use tulum_utils.Libc.Tokens.{tokens}
use tulum_utils.Conf.Carriers.{is_compensation, compensate_range}
use tulum_utils.Conf.Compensation.{
  calibrated, compensate_carriers_lem, compensate_carriers-some, length-compensate_carriers,
}
use tulum_utils.Conf.Calibration.{
  Line, Variables, scan_line, range_texts, calibrate_range, calibrate_lines, scanned,
}

-- A range of carriers and a value.
pub record Entry : Type 0 where
  pub first : ℕ
  pub last : ℕ
  pub value : ℤ

-- The texts of a line are those of an entry.
pub record Reads (l : Line) (e : Entry) : Type 0 where
  pub range : Bytes
  pub first_text : Bytes
  pub last_text : Bytes
  pub value_text : Bytes
  pub range_eq : l.carrier_range ≡ some range
  pub tokens_eq : tokens 45 range ≡ first_text ∷ last_text ∷ []
  pub value_eq : l.compensate_text ≡ some value_text
  pub first_eq : scan_int first_text ≡ some (pos e.first)
  pub last_eq : scan_int last_text ≡ some (pos e.last)
  pub number_eq : scan_int value_text ≡ some e.value

-- Line by line, with the ranges in a map of `n` carriers.
abbrev pub AllRead : ℕ → List Line → List Entry → Type 0
AllRead n [] [] = Unit
AllRead n (l ∷ lines) (e ∷ entries) =
    Reads l e × (e.first ≤ e.last) × (e.last < n) × AllRead n lines entries
AllRead n _ _ = ⊥

-- One entry, and all of them in order, on the backoff `b` of carrier `i`.
abbrev pub after_entry : Entry → ℕ → ℕ → ℕ
after_entry e i b =
    if is_compensation e.value then calibrated e.value e.first (suc e.last - e.first) i b else b

abbrev pub after_entries : List Entry → ℕ → ℕ → ℕ
after_entries [] i b = b
after_entries (e ∷ entries) i b = after_entries entries i (after_entry e i b)

abbrev read_variables : Entry → Variables
read_variables e = record {
  first_idx = some (pos e.first);
  second_idx = some (pos e.last);
  compensate_value = some e.value;
}

scanned_lem :
    (text : Bytes) (old : Option ℤ) (n : ℤ) → scan_int text ≡ some n → scanned text old ≡ some n
scanned_lem text old n h = rw (scanned, h) refl

scan_line-Reads :
    (l : Line) (e : Entry) (v : Variables) → Reads l e → scan_line l v ≡ some (read_variables e)
unfolding scan_line range_texts
scan_line-Reads l e v r =
    rw (scan_line, r.range_eq, r.tokens_eq, r.value_eq)
      (λ i. some (record {
        first_idx = scanned_lem r.first_text v.first_idx (pos e.first) r.first_eq i;
        second_idx = scanned_lem r.last_text v.second_idx (pos e.last) r.last_eq i;
        compensate_value = scanned_lem r.value_text v.compensate_value e.value r.number_eq i;
      }))

-- What one line leaves: a map of the same length with each carrier calibrated.
record Calibrates (bs bs' : List ℕ) (f : ℕ → ℕ → ℕ) : Type 0 where
  same_length : length bs' ≡ length bs
  each : (i b : ℕ) → get_elem? bs i ≡ some b → get_elem? bs' i ≡ some (f i b)

calibrate_range_lem :
    (e : Entry) (bs : List ℕ)
    → e.first ≤ e.last
    → e.last < length bs
    → (bs' : List ℕ) × (calibrate_range (read_variables e) bs ≡ some bs')
      × Calibrates bs bs' (after_entry e)
unfolding calibrate_range compensate_range
calibrate_range_lem e bs ordered inside = elim (Bool-cases (is_compensation e.value)) [
  | inl valid ↦
      let n = suc e.last - e.first in
      let (bs', run) = compensate_carriers-some e.value n e.first bs (omega arith) in
      (
        bs',
        rw (calibrate_range, valid) run,
        record {
          same_length = length-compensate_carriers e.value n e.first bs bs' run;
          each = λ i b h. rw valid (compensate_carriers_lem e.value n e.first i b bs bs' run h);
        },
      )
  | inr invalid ↦ (
    bs,
    rw (calibrate_range, invalid) refl,
    record { same_length = refl; each = λ i b h. rw invalid h },
  )
]

-- If every line is that of an entry whose range is in the map, the calibration does not fault; the map
-- keeps its length, and each carrier has its backoff after all of the entries, in their order.
pub calibrate_lines_entries :
    (lines : List Line) (entries : List Entry) (v : Variables) (bs : List ℕ)
    → AllRead (length bs) lines entries
    → (bs' : List ℕ) × (calibrate_lines lines v bs ≡ some bs')
      × (length bs' ≡ length bs)
      × ((i b : ℕ) → get_elem? bs i ≡ some b → get_elem? bs' i ≡ some (after_entries entries i b))
unfolding calibrate_lines
calibrate_lines_entries [] [] v bs h = (bs, refl, refl, λ i b e. e)
calibrate_lines_entries (l ∷ lines) (e ∷ entries) v bs (reads, ordered, inside, others) =
    let (mid, run, ok) = calibrate_range_lem e bs ordered inside in
    let inside' = subst (λ n. AllRead n lines entries) (sym ok.same_length) others in
    let (bs', run', same, each) =
      calibrate_lines_entries lines entries (read_variables e) mid inside' in
    (
      bs',
      rw (calibrate_lines, scan_line-Reads l e v reads, run) run',
      same ∙ ok.same_length,
      λ i b h. each i (after_entry e i b) (ok.each i b h),
    )
calibrate_lines_entries _ _ v bs h = absurd h
