-- ===== src/Access/Fragments.antt =====
-- The fragments of a file that test_mme_mtk_vs_file_access_req writes.
use tulum_utils.Base.{
  ℕ, zero, suc, ◌+◌, ◌-◌, ◌*◌, ◌≤◌, ◌≡◌, sym, ap, ◌∙◌, arith, [], ◌∷◌, ◌++◌, Bytes, length, min,
  slice, take, drop, length-drop, drop-drop, drop_all,
}
use tulum_utils.Access.Transfer.{Request}

-- What a station takes from a request: the number of the fragment, its place in the file, its bytes.
abbrev pub Piece : Type 0
Piece = ℕ × ℕ × Bytes

abbrev pub piece : Request → Piece
piece req = (req.fragment_number, req.offset, take req.data_length req.data_bytes)

-- Fragment `i` of a file.
abbrev pub fragment : Bytes → ℕ → Piece
fragment buf i = (i, 1024 * i, slice (1024 * i) (min 1024 (length buf - 1024 * i)) buf)

-- The bytes of `m` fragments from fragment `i` on.
abbrev pub joined : Bytes → ℕ → ℕ → Bytes
joined buf i zero = []
joined buf i (suc m) =
    slice (1024 * i) (min 1024 (length buf - 1024 * i)) buf ++ joined buf (suc i) m

take-append-drop-min : (k : ℕ) (bs : Bytes) → take (min k (length bs)) bs ++ drop k bs ≡ bs
take-append-drop-min zero bs =
    let e : min zero (length bs) ≡ zero = omega arith in ap (λ m. take m bs ++ bs) e
take-append-drop-min (suc k) [] =
    let e : min (suc k) 0 ≡ 0 = omega arith in ap (λ m. take {A = ℕ} m [] ++ []) e
take-append-drop-min (suc k) (b ∷ bs) =
    let e : min (suc k) (suc (length bs)) ≡ suc (min k (length bs)) = omega arith in
    ap (λ m. take m (b ∷ bs) ++ drop k bs) e ∙ ap (◌∷◌ b) (take-append-drop-min k bs)

pub joined_lem :
    (buf : Bytes) (i m : ℕ) → length buf ≤ 1024 * (i + m) → joined buf i m ≡ drop (1024 * i) buf
joined_lem buf i zero h = sym (drop_all (1024 * i) buf (omega arith))
joined_lem buf i (suc m) h =
    let rest = joined_lem buf (suc i) m (omega arith) in
    let next : 1024 * suc i ≡ 1024 * i + 1024 = omega arith in
    let left : length buf - 1024 * i ≡ length (drop (1024 * i) buf) =
      omega (arith, length-drop (1024 * i) buf) in
    (λ t.
      take (min 1024 (left t)) (drop (1024 * i) buf)
      ++ (rest ∙ ap (λ k. drop k buf) next ∙ sym (drop-drop 1024 (1024 * i) buf)) t)
    ∙ take-append-drop-min 1024 (drop (1024 * i) buf)
