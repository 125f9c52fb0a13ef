-- ===== src/Utils/Rle/Step.antt =====
-- One run of the run-length code of a tone map, and what its decoder makes of it.
use tulum_utils.Base.{
  ℕ, ◌+◌, ◌-◌, ◌/◌, ◌%◌, ◌≤◌, ◌<◌, ◌≡◌, refl, ap, ◌∙◌, arith, true, false, leb, ◌==◌, Bool-cases,
  inl, inr, ◌⊎◌, if◌then◌else◌, List, [], ◌∷◌, ◌++◌, Option, some, none, length, length-append,
  length-replicate, replicate, append-nil,
}
use tulum_utils.Utils.Rle.{
  RleState, get_rle_len, entry, write_entries, modulation_step, nibble_step, rle_step, rle_steps,
}

-- A modulation, and for how many carriers.
abbrev pub Run : Type 0
Run = ℕ × ℕ

-- A run has one carrier, or three to 58.
abbrev pub IsRun : Run → Type 0
IsRun (v, n) = (v ≤ 8) × ((n ≡ 1) ⊎ ((3 ≤ n) × (n ≤ 58)))

-- The fields of a run: the modulation, and none, one or two fields for the length.
abbrev pub run_fields : Run → List ℕ
run_fields (v, n) =
    if n == 1
    then v ∷ []
    else if leb n 9
    then v ∷ (n + 6) ∷ []
    else v ∷ (9 + (n - 3) % 7) ∷ (8 + (n - 3) / 7) ∷ []

abbrev pub fields : List Run → List ℕ
fields [] = []
fields (r ∷ rs) = run_fields r ++ fields rs

-- The modulation of each carrier.
abbrev pub carriers : List Run → List ℕ
carriers [] = []
carriers ((v, n) ∷ rs) = replicate n v ++ carriers rs

-- The carriers that a pending run stands for.
abbrev pub pending_run : Option ℕ → Option ℕ → List ℕ
pending_run none rle = []
pending_run (some v) none = v ∷ []
pending_run (some v) (some r) = replicate (get_rle_len 8 r) v

-- What has been written, with the run that is pending.
abbrev pub with_pending : RleState → List ℕ
with_pending s = s.modulation_list ++ pending_run s.modulation s.rle

-- No length waits without a modulation.
abbrev pub IsReady : Option ℕ → Option ℕ → Type 0
IsReady none rle = rle ≡ none
IsReady (some v) rle = Unit

write_entries_lem :
    (s : RleState) (n : ℕ)
    → length s.modulation_list + n ≤ 4097
    → write_entries s n ≡ some (s.modulation_list ++ replicate n (entry s.modulation))
unfolding write_entries
write_entries_lem s n h = ground arith

-- A modulation field writes what is pending, and is pending itself.
modulation_step_lem :
    (modulation rle : Option ℕ) (list : List ℕ) (x : ℕ)
    → IsReady modulation rle
    → length (list ++ pending_run modulation rle) ≤ 4097
    → modulation_step modulation rle
        (record { modulation = modulation; rle = rle; modulation_list = list })
        x
      ≡ some (record {
        modulation = some x;
        rle = none;
        modulation_list = list ++ pending_run modulation rle;
      })
unfolding modulation_step
modulation_step_lem none rle list x ready fits =
    rw (append-nil list)
      (ap (λ z. some (record { modulation = some x; rle = z; modulation_list = list })) ready)
modulation_step_lem (some v) none list x ready fits =
    rw
      (write_entries_lem (record { modulation = some v; rle = none; modulation_list = list }) 1
        (omega (arith, length-append list (v ∷ []))))
      (unfold replicate in refl)
modulation_step_lem (some v) (some r) list x ready fits =
    rw
      (write_entries_lem (record { modulation = some v; rle = some r; modulation_list = list })
        (get_rle_len 8 r)
        (omega (
          arith,
          length-append list (replicate (get_rle_len 8 r) v),
          length-replicate (get_rle_len 8 r) v,
        )))
      refl

-- The state after a modulation field.
abbrev pub fresh : List ℕ → ℕ → RleState
fresh list v = record { modulation = some v; rle = none; modulation_list = list }

pub modulation_field :
    (s : RleState) (x : ℕ)
    → IsReady s.modulation s.rle
    → length (with_pending s) ≤ 4097
    → x ≤ 8
    → rle_step s x ≡ some (fresh (with_pending s) x)
unfolding rle_step
modulation_field s x ready fits low =
    let field : leb x 8 ≡ true = ground arith in
    rw field (modulation_step_lem s.modulation s.rle s.modulation_list x ready fits)

pub first_length :
    (list : List ℕ) (v x : ℕ)
    → 8 < x
    → rle_step (fresh list v) x
      ≡ some (record { modulation = some v; rle = some x; modulation_list = list })
unfolding rle_step nibble_step
first_length list v x high = let field : leb x 8 ≡ false = ground arith in rw field refl

second_length :
    (list : List ℕ) (v r x : ℕ)
    → 8 < x
    → length list + get_rle_len x r ≤ 4097
    → rle_step (record { modulation = some v; rle = some r; modulation_list = list }) x
      ≡ some (record {
        modulation = none;
        rle = none;
        modulation_list = list ++ replicate (get_rle_len x r) v;
      })
unfolding rle_step nibble_step
second_length list v r x high fits =
    let field : leb x 8 ≡ false = ground arith in
    rw
      (
        field,
        write_entries_lem (record { modulation = some v; rle = some r; modulation_list = list })
            (get_rle_len x r) fits,
      )
      refl

-- What a run leaves behind.
abbrev pub IsAfter : RleState → Run → List ℕ → Type 0
IsAfter s (v, n) xs =
    (s' : RleState) × (rle_steps s xs ≡ some s')
    × IsReady s'.modulation s'.rle
    × (with_pending s' ≡ with_pending s ++ replicate n v)

module _ (s : RleState) (v n : ℕ) (ready : IsReady s.modulation s.rle) (low : v ≤ 8)
    (fits : length (with_pending s) + n ≤ 4097) where
  single_run : n ≡ 1 → IsAfter s (v, n) (v ∷ [])
  unfolding rle_steps
  single_run one = (
    fresh (with_pending s) v,
    rw (modulation_field s v ready (omega arith) low) refl,
    tt,
    rw one (unfold replicate in refl),
  )

  short_run : 3 ≤ n → n ≤ 9 → IsAfter s (v, n) (v ∷ (n + 6) ∷ [])
  unfolding rle_steps
  short_run least most =
      let e : get_rle_len 8 (n + 6) ≡ n = unfold get_rle_len in omega arith in
      (
        record { modulation = some v; rle = some (n + 6); modulation_list = with_pending s },
        rw
            (
              modulation_field s v ready (omega arith) low,
              first_length (with_pending s) v (n + 6) (omega arith),
            )
            refl,
        tt,
        ap (λ k. with_pending s ++ replicate k v) e,
      )

  long_run : 10 ≤ n → n ≤ 58 → IsAfter s (v, n) (v ∷ (9 + (n - 3) % 7) ∷ (8 + (n - 3) / 7) ∷ [])
  unfolding rle_steps
  long_run least most =
      let r = 9 + (n - 3) % 7 in
      let x = 8 + (n - 3) / 7 in
      let e : get_rle_len x r ≡ n = unfold get_rle_len in omega arith in
      (
        record {
          modulation = none;
          rle = none;
          modulation_list = with_pending s ++ replicate (get_rle_len x r) v;
        },
        rw
            (
              modulation_field s v ready (omega arith) low,
              first_length (with_pending s) v r (omega arith),
              second_length (with_pending s) v r x (omega arith) (omega arith),
            )
            refl,
        refl,
        append-nil (with_pending s ++ replicate (get_rle_len x r) v)
            ∙ ap (λ k. with_pending s ++ replicate k v) e,
      )

  pub run_lem : (n ≡ 1) ⊎ ((3 ≤ n) × (n ≤ 58)) → IsAfter s (v, n) (run_fields (v, n))
  run_lem (inl one) = let e : (n == 1) ≡ true = ground arith in rw e (single_run one)
  run_lem (inr (least, most)) =
      let e : (n == 1) ≡ false = ground arith in
      elim (Bool-cases (leb n 9)) [
        | inl short ↦ rw (e, short) (short_run least (ground arith))
        | inr long ↦ rw (e, long) (long_run (ground arith) most)
      ]
