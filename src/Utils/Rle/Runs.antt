-- ===== src/Utils/Rle/Runs.antt =====
-- Tone maps in the run-length code, and what the decoder makes of them.
use tulum_utils.Base.{
  ℕ, ◌+◌, ◌*◌, ◌/◌, ◌%◌, ◌≤◌, ◌≡◌, refl, sym, ◌∙◌, arith, true, false, leb, ◌==◌, inl, inr, List,
  [], ◌∷◌, ◌++◌, some, copy_out_lem, take_all, >>=-eq-some, All, length, length-append,
  length-replicate, replicate, append_assoc, append-nil,
}
use tulum_utils.Utils.Rle.{RleState, rle_start, rle_step, rle_steps, nibbles, decode_tonemap}
use tulum_utils.Utils.Rle.Step.{
  Run, IsRun, run_fields, fields, carriers, with_pending, IsReady, fresh, modulation_field,
  first_length, run_lem,
}

rle_steps-append :
    (s s' : RleState) (xs ys : List ℕ)
    → rle_steps s xs ≡ some s'
    → rle_steps s (xs ++ ys) ≡ rle_steps s' ys
unfolding rle_steps
rle_steps-append s s' [] ys h = cc
rle_steps-append s s' (x ∷ xs) ys h =
    let (s₁, stepped, rest) = >>=-eq-some (rle_step s x) (λ t. rle_steps t xs) h in
    rw stepped (rle_steps-append s₁ s' xs ys rest)

steps_lem :
    (s : RleState) (runs : List Run)
    → IsReady s.modulation s.rle
    → All IsRun runs
    → length (with_pending s ++ carriers runs) ≤ 4097
    → (s' : RleState) × (rle_steps s (fields runs) ≡ some s')
      × IsReady s'.modulation s'.rle
      × (with_pending s' ≡ with_pending s ++ carriers runs)
steps_lem s [] ready h fits =
    (s, unfold rle_steps in refl, ready, sym (append-nil (with_pending s)))
steps_lem s ((v, n) ∷ runs) ready h fits =
    let joined = append_assoc (with_pending s) (replicate n v) (carriers runs) in
    let (s₁, stepped, ready₁, e) =
      run_lem s v n ready h.0.0
        (omega (
          arith,
          length-replicate n v,
          length-append (with_pending s) (replicate n v ++ carriers runs),
          length-append (replicate n v) (carriers runs),
        ))
        h.0.1 in
    let same : with_pending s₁ ++ carriers runs
        ≡ with_pending s ++ (replicate n v ++ carriers runs) =
      rw e joined in
    let (s₂, rest, ready₂, e₂) = steps_lem s₁ runs ready₁ h.1 (rw same fits) in
    (s₂, rle_steps-append s s₁ (run_fields (v, n)) (fields runs) stepped ∙ rest, ready₂, e₂ ∙ same)

-- Read from the start, the fields of runs of one carrier, or of three to 58, with modulations of at
-- most 8, for at most 4097 carriers in all, make no write past the list; what has been written,
-- with the run that is still pending, is the modulation of each carrier.
pub rle_steps-fields :
    (runs : List Run)
    → All IsRun runs
    → length (carriers runs) ≤ 4097
    → (s : RleState) × (rle_steps rle_start (fields runs) ≡ some s)
      × (with_pending s ≡ carriers runs)
rle_steps-fields runs h fits =
    let (s, stepped, ready, e) = steps_lem rle_start runs refl h fits in (s, stepped, e)

-- A run of at most nine carriers is left pending.
short_pending :
    (s : RleState) (v n : ℕ)
    → IsReady s.modulation s.rle
    → IsRun (v, n)
    → n ≤ 9
    → length (with_pending s) ≤ 4097
    → (s' : RleState) × (rle_steps s (run_fields (v, n)) ≡ some s')
      × (s'.modulation_list ≡ with_pending s)
unfolding rle_steps
short_pending s v n ready (low, inl one) short fits =
    let e : (n == 1) ≡ true = ground arith in
    (fresh (with_pending s) v, rw (e, modulation_field s v ready fits low) refl, refl)
short_pending s v n ready (low, inr (least, most)) short fits =
    let e : (n == 1) ≡ false = ground arith in
    let f : leb n 9 ≡ true = ground arith in
    (
      record { modulation = some v; rle = some (n + 6); modulation_list = with_pending s },
      rw
          (
            e,
            f,
            modulation_field s v ready fits low,
            first_length (with_pending s) v (n + 6) (omega arith),
          )
          refl,
      refl,
    )

-- Bytes whose half bytes are the fields of such runs, for at most 4097 carriers, and of one more
-- run of at most nine carriers, are decoded to the carriers of the runs ahead of the last: the
-- last run is lost.
pub decode_tonemap_last :
    (bytes : List ℕ) (runs : List Run) (v n : ℕ)
    → nibbles bytes ≡ fields runs ++ run_fields (v, n)
    → All IsRun runs
    → IsRun (v, n)
    → n ≤ 9
    → length (carriers runs) ≤ 4097
    → decode_tonemap bytes (length bytes * 8) ≡ some (carriers runs)
unfolding decode_tonemap
decode_tonemap_last bytes runs v n e h r short fits =
    let (s, stepped, ready, all) = steps_lem rle_start runs refl h fits in
    let (s', last, left) = short_pending s v n ready r short (rw all fits) in
    let size : length bytes * 8 / 8 ≡ length bytes = omega arith in
    let whole : (length bytes * 8 % 8 == 0) ≡ true = ground arith in
    rw
      (
        size,
        copy_out_lem 0 (length bytes) bytes (omega arith),
        take_all (length bytes) bytes (omega arith),
        e,
        rle_steps-append rle_start s (fields runs) (run_fields (v, n)) stepped,
        last,
        whole,
        left,
        all,
      )
      refl
