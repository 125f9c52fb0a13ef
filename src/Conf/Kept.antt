-- ===== src/Conf/Kept.antt =====
-- What a calibration by conf_file_modify_psd_cali keeps of the map of backoffs.
use tulum_utils.Base.{
  either, ℕ, zero, suc, ◌-◌, ◌≤◌, ◌<◌, ◌≡◌, ◌≢◌, refl, sym, subst, ap, ◌∙◌, ◌⊎◌, inl, inr, arith,
  Bool, true, false, leb, if◌then◌else◌, none, some, >>=-eq-some, List, [], ◌∷◌, Bytes, length,
  get_elem?, replace_at, All,
}
use mathlib.Core.Option.{some_inj}
use tulum_utils.Base.Int.{ℤ, pos, negsuc}
use tulum_utils.Conf.Carriers.{
  is_notched_carrier, compensated, is_compensation, compensate_carrier, compensate_carriers,
  compensate_range,
}
use tulum_utils.Conf.Pack.{IsBackoff}
use tulum_utils.Conf.Compensation.{compensated_bound, is_notched_15}
use tulum_utils.Conf.Calibration.{
  Line, Variables, unset, scan_line, calibrate_range, calibrate_lines, calibrate_file, read_all,
}
use tulum_utils.Libc.Tokens.{fgets_lines}

-- A backoff stays as it is, or it was not 15 and is not afterwards.
abbrev pub IsKept : ℕ → ℕ → Type 0
IsKept b c = (c ≡ b) ⊎ ((b ≢ 15) × (c ≤ 14))

IsKept-trans : (a b c : ℕ) → IsKept a b → IsKept b c → IsKept a c
IsKept-trans a b c h k = grind arith

-- Carrier by carrier.
abbrev pub AllKept : List ℕ → List ℕ → Type 0
AllKept [] [] = Unit
AllKept (b ∷ bs) (c ∷ cs) = IsKept b c × AllKept bs cs
AllKept _ _ = ⊥

AllKept-refl : (bs : List ℕ) → AllKept bs bs
AllKept-refl [] = tt
AllKept-refl (b ∷ bs) = (inl refl, AllKept-refl bs)

AllKept-trans : (xs bs cs : List ℕ) → AllKept xs bs → AllKept bs cs → AllKept xs cs
AllKept-trans [] [] cs h k = k
AllKept-trans (a ∷ xs) (b ∷ bs) (c ∷ cs) h k =
    (IsKept-trans a b c h.0 k.0, AllKept-trans xs bs cs h.1 k.1)
AllKept-trans [] (b ∷ bs) cs h k = absurd h
AllKept-trans (a ∷ xs) [] cs h k = absurd h
AllKept-trans (a ∷ xs) (b ∷ bs) [] h k = absurd k

AllKept-replace_at :
    (j b c : ℕ) (bs : List ℕ)
    → get_elem? bs j ≡ some b
    → IsKept b c
    → AllKept bs (replace_at j c bs)
AllKept-replace_at j b c [] e h = tt
AllKept-replace_at zero b c (x ∷ bs) e h =
    (subst (λ y. IsKept y c) (sym (some_inj.0 e)) h, AllKept-refl bs)
AllKept-replace_at (suc j) b c (x ∷ bs) e h = (inl refl, AllKept-replace_at j b c bs e h)

-- A carrier that is not notched does not have 15.
compensated-IsKept :
    (j b : ℕ) (value : ℤ) → is_notched_carrier j b ≡ false → IsKept b (compensated b value)
compensated-IsKept j b value free =
    inr (
      λ e. cc (sym free ∙ ap (is_notched_carrier j) e ∙ is_notched_15 j),
      compensated_bound b value,
    )

chosen-AllKept :
    (t : Bool) (j b c : ℕ) (bs bs' : List ℕ)
    → (t ≡ false → IsKept b c)
    → get_elem? bs j ≡ some b
    → (if t then bs else replace_at j c bs) ≡ bs'
    → AllKept bs bs'
chosen-AllKept true j b c bs bs' kept found e = subst (AllKept bs) e (AllKept-refl bs)
chosen-AllKept false j b c bs bs' kept found e =
    subst (AllKept bs) e (AllKept-replace_at j b c bs found (kept refl))

compensate_carrier-AllKept :
    (value : ℤ) (j : ℕ) (bs bs' : List ℕ)
    → compensate_carrier value j bs ≡ some bs'
    → AllKept bs bs'
unfolding compensate_carrier
compensate_carrier-AllKept value j bs bs' h =
    let (b, found, result) = >>=-eq-some (get_elem? bs j) _ h in
    chosen-AllKept (is_notched_carrier j b) j b (compensated b value) bs bs'
      (compensated-IsKept j b value) found (some_inj.0 result)

compensate_carriers-AllKept :
    (value : ℤ) (n j : ℕ) (bs bs' : List ℕ)
    → compensate_carriers value n j bs ≡ some bs'
    → AllKept bs bs'
unfolding compensate_carriers
compensate_carriers-AllKept value zero j bs bs' h =
    subst (AllKept bs) (some_inj.0 h) (AllKept-refl bs)
compensate_carriers-AllKept value (suc n) j bs bs' h =
    let (rest, first, others) = >>=-eq-some (compensate_carrier value j bs) _ h in
    AllKept-trans bs rest bs' (compensate_carrier-AllKept value j bs rest first)
      (compensate_carriers-AllKept value n (suc j) rest bs' others)

compensate_range-AllKept :
    (value first second : ℤ) (bs bs' : List ℕ)
    → compensate_range value first second bs ≡ some bs'
    → AllKept bs bs'
unfolding compensate_range
compensate_range-AllKept value (pos a) (pos b) bs bs' h =
    compensate_carriers-AllKept value (suc b - a) a bs bs' h
compensate_range-AllKept value (pos a) (negsuc b) bs bs' h =
    subst (AllKept bs) (some_inj.0 h) (AllKept-refl bs)
compensate_range-AllKept value (negsuc a) (pos b) bs bs' h = cc
compensate_range-AllKept value (negsuc a) (negsuc b) bs bs' h = grind (arith, AllKept-refl bs)

calibrate_range-AllKept :
    (v : Variables) (bs bs' : List ℕ) → calibrate_range v bs ≡ some bs' → AllKept bs bs'
unfolding calibrate_range
calibrate_range-AllKept v bs bs' h =
    let (value, _, rest) = >>=-eq-some v.compensate_value _ h in
    either (is_compensation value) _ _ (AllKept bs bs')
      (λ e.
        let (first, _, rest') = >>=-eq-some v.first_idx _ e in
        let (second, _, run) = >>=-eq-some v.second_idx _ rest' in
        compensate_range-AllKept value first second bs bs' run)
      (λ e. subst (AllKept bs) (some_inj.0 e) (AllKept-refl bs)) rest

calibrate_lines-AllKept :
    (lines : List Line) (v : Variables) (bs bs' : List ℕ)
    → calibrate_lines lines v bs ≡ some bs'
    → AllKept bs bs'
unfolding calibrate_lines
calibrate_lines-AllKept [] v bs bs' h = subst (AllKept bs) (some_inj.0 h) (AllKept-refl bs)
calibrate_lines-AllKept (l ∷ lines) v bs bs' h =
    let (v', scan, rest) = >>=-eq-some (scan_line l v) _ h in
    let (mid, one, others) = >>=-eq-some (calibrate_range v' bs) _ rest in
    AllKept-trans bs mid bs' (calibrate_range-AllKept v' bs mid one)
      (calibrate_lines-AllKept lines v' mid bs' others)

-- Whatever the file holds, a calibration that does not fault leaves a map with the same carriers. A
-- carrier of backoff 15 keeps it, and any other carrier keeps its backoff or has one of at most 14.
pub calibrate_file-AllKept :
    (file : Bytes) (bs bs' : List ℕ) → calibrate_file file bs ≡ some bs' → AllKept bs bs'
unfolding calibrate_file
calibrate_file-AllKept file bs bs' h =
    let lines = read_all (fgets_lines 20 file) in
    either (leb (length lines) 4096) (calibrate_lines lines unset bs) none (AllKept bs bs')
      (λ e. calibrate_lines-AllKept lines unset bs bs' e) (λ e. cc) h

-- The map is as long as it was, of numbers of four bits.
pub AllKept-IsBackoff :
    (bs cs : List ℕ) → AllKept bs cs → All IsBackoff bs → All IsBackoff cs × (length cs ≡ length bs)
AllKept-IsBackoff [] [] kept all = (tt, refl)
AllKept-IsBackoff (b ∷ bs) (c ∷ cs) kept all =
    let (rest, same) = AllKept-IsBackoff bs cs kept.1 all.1 in
    let first : c < 16 = grind (arith, kept.0, all.0) in ((first, rest), ap suc same)
AllKept-IsBackoff [] (c ∷ cs) kept all = absurd kept
AllKept-IsBackoff (b ∷ bs) [] kept all = absurd kept
