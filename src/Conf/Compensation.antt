-- ===== src/Conf/Compensation.antt =====
-- The calibration of one range of carriers, and Is_notched_carrier (conf_file_modify_psd_cali).
use tulum_utils.Base.{
  ℕ, zero, suc, ◌+◌, ◌≤◌, ◌<◌, ◌≡◌, refl, ap, ◌∙◌, arith, true, not, ◌&&◌, ◌||◌, ltb, leb, ◌==◌,
  if◌then◌else◌, some, >>=-eq-some, List, [], ◌∷◌, length, get_elem?, replace_at, length-replace_at,
  get_elem?-replace_at, get_elem?-some,
}
use tulum_utils.Base.Int.{ℤ, pos, negsuc}
use tulum_utils.Conf.Carriers.{
  notched_ranges, in_ranges, is_notched_carrier, compensated, at_most_14, compensate_carrier,
  compensate_carriers,
}

-- A carrier counts as notched by its backoff of 15, and below carrier 737 also if a range of the table
-- has it; the ranges from 737 on are not looked at.
pub is_notched_carrier_lem :
    (idx backoff : ℕ)
    → is_notched_carrier idx backoff
      ≡ (backoff == 15 || (ltb idx 737 && in_ranges idx notched_ranges))
unfolding is_notched_carrier
is_notched_carrier_lem idx backoff = ground arith

pub compensated_bound : (backoff : ℕ) (value : ℤ) → compensated backoff value ≤ 14
unfolding compensated at_most_14
compensated_bound backoff (pos n) = ground arith
compensated_bound backoff (negsuc n) = ground arith

pub is_notched_15 : (idx : ℕ) → is_notched_carrier idx 15 ≡ true
unfolding is_notched_carrier
is_notched_15 idx = refl

-- A carrier's new backoff.
abbrev pub calibrated : ℤ → ℕ → ℕ → ℕ → ℕ → ℕ
calibrated value first n i b =
    if (leb first i && ltb i (first + n)) && not (is_notched_carrier i b)
    then compensated b value
    else b

compensate_carrier_lem :
    (value : ℤ) (j i b : ℕ) (bs bs' : List ℕ)
    → compensate_carrier value j bs ≡ some bs'
    → get_elem? bs i ≡ some b
    → get_elem? bs' i ≡ some (calibrated value j 1 i b)
unfolding compensate_carrier
compensate_carrier_lem value j i b bs bs' h e =
    let (c, found, result) = >>=-eq-some (get_elem? bs j) _ h in
    ground (arith, get_elem?-replace_at j i (compensated c value) bs (get_elem?-some j bs found))

-- The first carrier of a range and the rest of it.
calibrated_step :
    (value : ℤ) (j n i b : ℕ)
    → calibrated value (suc j) n i (calibrated value j 1 i b) ≡ calibrated value j (suc n) i b
calibrated_step value j n i b = ground arith

-- The carriers of a range that are not notched are compensated, and the others keep their backoffs.
pub compensate_carriers_lem :
    (value : ℤ) (n j i b : ℕ) (bs bs' : List ℕ)
    → compensate_carriers value n j bs ≡ some bs'
    → get_elem? bs i ≡ some b
    → get_elem? bs' i ≡ some (calibrated value j n i b)
unfolding compensate_carriers
compensate_carriers_lem value zero j i b bs bs' h e = ground arith
compensate_carriers_lem value (suc n) j i b bs bs' h e =
    let (rest, first, others) = >>=-eq-some (compensate_carrier value j bs) _ h in
    let one = compensate_carrier_lem value j i b bs rest first e in
    compensate_carriers_lem value n (suc j) i (calibrated value j 1 i b) rest bs' others one
    ∙ ap some (calibrated_step value j n i b)

-- A range within the map does not fault.
length-compensate_carrier :
    (value : ℤ) (j : ℕ) (bs bs' : List ℕ)
    → compensate_carrier value j bs ≡ some bs'
    → length bs' ≡ length bs
unfolding compensate_carrier
length-compensate_carrier value j bs bs' h =
    let (c, found, result) = >>=-eq-some (get_elem? bs j) _ h in
    ground (arith, length-replace_at j (compensated c value) bs)

pub length-compensate_carriers :
    (value : ℤ) (n j : ℕ) (bs bs' : List ℕ)
    → compensate_carriers value n j bs ≡ some bs'
    → length bs' ≡ length bs
unfolding compensate_carriers
length-compensate_carriers value zero j bs bs' h = ground arith
length-compensate_carriers value (suc n) j bs bs' h =
    let (rest, first, others) = >>=-eq-some (compensate_carrier value j bs) _ h in
    length-compensate_carriers value n (suc j) rest bs' others
    ∙ length-compensate_carrier value j bs rest first

get_elem?_lt : (i : ℕ) (bs : List ℕ) → i < length bs → (b : ℕ) × (get_elem? bs i ≡ some b)
get_elem?_lt i [] h = absurd (omega arith)
get_elem?_lt zero (b ∷ bs) h = (b, refl)
get_elem?_lt (suc i) (b ∷ bs) h = get_elem?_lt i bs (omega arith)

compensate_carrier-some :
    (value : ℤ) (j : ℕ) (bs : List ℕ)
    → j < length bs
    → (bs' : List ℕ) × (compensate_carrier value j bs ≡ some bs')
unfolding compensate_carrier
compensate_carrier-some value j bs h =
    let (b, e) = get_elem?_lt j bs h in
    (
      (if is_notched_carrier j b then bs else replace_at j (compensated b value) bs),
      rw (compensate_carrier, e) refl,
    )

pub compensate_carriers-some :
    (value : ℤ) (n j : ℕ) (bs : List ℕ)
    → j + n ≤ length bs
    → (bs' : List ℕ) × (compensate_carriers value n j bs ≡ some bs')
unfolding compensate_carriers
compensate_carriers-some value zero j bs h = (bs, refl)
compensate_carriers-some value (suc n) j bs h =
    let (rest, e) = compensate_carrier-some value j bs (omega arith) in
    let (bs', e') =
      compensate_carriers-some value n (suc j) rest
        (omega (arith, length-compensate_carrier value j bs rest e)) in
    (bs', rw (compensate_carriers, e) e')
