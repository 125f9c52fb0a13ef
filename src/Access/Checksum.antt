-- ===== src/Access/Checksum.antt =====
-- xorchecksum: the exclusive or of the words of a file, turned round.
use Prim.Native.Nat.{bit_xor}
use mathlib.Core.Option.{some_inj}
use tulum_utils.Base.{
  ℕ, zero, suc, ◌-◌, ◌%◌, ◌<◌, ◌≡◌, refl, ap, ◌∙◌, arith, Bool, true, ◌&&◌, ◌==◌, ==_iff,
  if◌then◌else◌, Option, none, some, [], ◌∷◌, ◌++◌, Bytes, IsByte, All, length, length-append,
  Bool-cases, inl, inr, sym, subst,
}
use tulum_utils.Base.BitXor.{bit_xor_bound}

-- Four bytes with four bytes, one by one.
abbrev pub xor_bytes : Bytes → Bytes → Bytes
xor_bytes [] ys = []
xor_bytes (x ∷ xs) [] = []
xor_bytes (x ∷ xs) (y ∷ ys) = bit_xor x y ∷ xor_bytes xs ys

-- The loop, which takes four bytes in each round.
unfoldable pub xor_words : Bytes → Bytes → Bytes
xor_words res (a ∷ b ∷ c ∷ d ∷ src) = xor_words (xor_bytes res (a ∷ b ∷ c ∷ d ∷ [])) src
xor_words res _ = res

-- ~res, byte by byte.
abbrev pub complement : Bytes → Bytes
complement [] = []
complement (x ∷ xs) = (255 - x) ∷ complement xs

-- The four bytes that are stored, or -1 for a size that is no multiple of four.
unfoldable pub xorchecksum : Bytes → Option Bytes
xorchecksum src =
    if length src % 4 == 0 then some (complement (xor_words (0 ∷ 0 ∷ 0 ∷ 0 ∷ []) src)) else none

-- A law of bytes, checked for each of them.
all_below : ℕ → (ℕ → Bool) → Bool
all_below zero p = true
all_below (suc n) p = p n && all_below n p

all_below_lem : (n : ℕ) (p : ℕ → Bool) (x : ℕ) → all_below n p ≡ true → x < n → p x ≡ true
unfolding all_below
all_below_lem zero p x h lt = absurd (omega arith)
all_below_lem (suc n) p x h lt = ground (arith, all_below_lem n p x)

complement_table : all_below 256 (λ x. bit_xor x (255 - x) == 255) ≡ true
unfolding all_below
complement_table = refl

-- A byte and its complement have each bit once.
bit_xor-complement : (x : ℕ) → x < 256 → bit_xor x (255 - x) ≡ 255
bit_xor-complement x h = (==_iff _ 255).0 (all_below_lem 256 _ x complement_table h)

xor_words-append :
    (res src more : Bytes)
    → length src % 4 ≡ 0
    → xor_words res (src ++ more) ≡ xor_words (xor_words res src) more
unfolding xor_words
xor_words-append res [] more h = refl
xor_words-append res (a ∷ b ∷ c ∷ d ∷ src) more h =
    xor_words-append (xor_bytes res (a ∷ b ∷ c ∷ d ∷ [])) src more (omega arith)
xor_words-append res (a ∷ []) more h = absurd (omega arith)
xor_words-append res (a ∷ b ∷ []) more h = absurd (omega arith)
xor_words-append res (a ∷ b ∷ c ∷ []) more h = absurd (omega arith)

-- Four bytes.
abbrev IsWord : Bytes → Type 0
IsWord w = All IsByte w × (length w ≡ 4)

IsWord-xor_bytes :
    (w : Bytes) (a b c d : ℕ)
    → IsWord w
    → All IsByte (a ∷ b ∷ c ∷ d ∷ [])
    → IsWord (xor_bytes w (a ∷ b ∷ c ∷ d ∷ []))
IsWord-xor_bytes (w ∷ x ∷ y ∷ z ∷ []) a b c d h all =
    let (wb, (xb, (yb, (zb, _)))) = h.0 in
    let (ab, (bb, (cb, (db, _)))) = all in
    (
      (
        bit_xor_bound w a wb ab,
        (bit_xor_bound x b xb bb, (bit_xor_bound y c yb cb, (bit_xor_bound z d zb db, tt))),
      ),
      refl,
    )
IsWord-xor_bytes _ a b c d h all = absurd (omega (arith, h.1))

IsWord-xor_words : (res src : Bytes) → IsWord res → All IsByte src → IsWord (xor_words res src)
unfolding xor_words
IsWord-xor_words res [] h all = h
IsWord-xor_words res (a ∷ []) h all = h
IsWord-xor_words res (a ∷ b ∷ []) h all = h
IsWord-xor_words res (a ∷ b ∷ c ∷ []) h all = h
IsWord-xor_words res (a ∷ b ∷ c ∷ d ∷ src) h all =
    let (ab, (bb, (cb, (db, rest)))) = all in
    IsWord-xor_words (xor_bytes res (a ∷ b ∷ c ∷ d ∷ [])) src
      (IsWord-xor_bytes res a b c d h (ab, (bb, (cb, (db, tt))))) rest

-- A word, then its complement.
checked_word : (w : Bytes) → IsWord w → complement (xor_words w (complement w)) ≡ 0 ∷ 0 ∷ 0 ∷ 0 ∷ []
unfolding xor_words
checked_word (w ∷ x ∷ y ∷ z ∷ []) h =
    let (wb, (xb, (yb, (zb, _)))) = h.0 in
    rw
      (
        bit_xor-complement w wb,
        bit_xor-complement x xb,
        bit_xor-complement y yb,
        bit_xor-complement z zb,
      )
      refl
checked_word _ h = absurd (omega (arith, h.1))

length-complement : (w : Bytes) → length (complement w) ≡ length w
length-complement [] = refl
length-complement (x ∷ w) = ap suc (length-complement w)

-- Bytes with their checksum behind them have the checksum 0.
pub xorchecksum-append :
    (src checksum : Bytes)
    → All IsByte src
    → xorchecksum src ≡ some checksum
    → xorchecksum (src ++ checksum) ≡ some (0 ∷ 0 ∷ 0 ∷ 0 ∷ [])
unfolding xorchecksum
xorchecksum-append src checksum all h = elim (Bool-cases (length src % 4 == 0)) [
  | inl whole ↦
      let w = xor_words (0 ∷ 0 ∷ 0 ∷ 0 ∷ []) src in
      let aligned : length src % 4 ≡ 0 = (==_iff _ 0).0 whole in
      let word : IsWord w =
        IsWord-xor_words (0 ∷ 0 ∷ 0 ∷ 0 ∷ []) src
          ((omega arith, (omega arith, (omega arith, (omega arith, tt)))), refl) all in
      let summed : xorchecksum src ≡ some (complement w) = rw (xorchecksum, whole) refl in
      let e : complement w ≡ checksum = some_inj.0 (sym summed ∙ h) in
      let whole' : (length (src ++ complement w) % 4 == 0) ≡ true =
        (==_iff _ 0).1
          (omega (arith, length-append src (complement w), length-complement w, word.1)) in
      let sum = xor_words-append (0 ∷ 0 ∷ 0 ∷ 0 ∷ []) src (complement w) aligned in
      subst (λ c. xorchecksum (src ++ c) ≡ some (0 ∷ 0 ∷ 0 ∷ 0 ∷ [])) e
        (rw (xorchecksum, whole') (ap some (ap complement sum ∙ checked_word w word)))
  | inr ragged ↦
      let missing : xorchecksum src ≡ none = rw (xorchecksum, ragged) refl in cc (sym missing ∙ h)
]

-- A file of whole words has a checksum, of four bytes.
pub xorchecksum-some : (src : Bytes) → length src % 4 ≡ 0 → (w : Bytes) × (xorchecksum src ≡ some w)
unfolding xorchecksum
xorchecksum-some src h =
    let whole : (length src % 4 == 0) ≡ true = (==_iff _ 0).1 h in
    (complement (xor_words (0 ∷ 0 ∷ 0 ∷ 0 ∷ []) src), rw (xorchecksum, whole) refl)

length-xor_words : (res src : Bytes) → length res ≡ 4 → length (xor_words res src) ≡ 4
unfolding xor_words
length-xor_words res [] h = h
length-xor_words res (a ∷ []) h = h
length-xor_words res (a ∷ b ∷ []) h = h
length-xor_words res (a ∷ b ∷ c ∷ []) h = h
length-xor_words (w ∷ x ∷ y ∷ z ∷ []) (a ∷ b ∷ c ∷ d ∷ src) h =
    length-xor_words (xor_bytes (w ∷ x ∷ y ∷ z ∷ []) (a ∷ b ∷ c ∷ d ∷ [])) src refl
length-xor_words _ (a ∷ b ∷ c ∷ d ∷ src) h = absurd (omega arith)

four : (w : Bytes) → length w ≡ 4 → (a b c d : ℕ) × (w ≡ a ∷ b ∷ c ∷ d ∷ [])
four (a ∷ b ∷ c ∷ d ∷ []) h = (a, b, c, d, refl)
four _ h = absurd (omega arith)

pub xorchecksum_word :
    (src w : Bytes) → xorchecksum src ≡ some w → (a b c d : ℕ) × (w ≡ a ∷ b ∷ c ∷ d ∷ [])
unfolding xorchecksum
xorchecksum_word src w h = elim (Bool-cases (length src % 4 == 0)) [
  | inl whole ↦
      let words = xor_words (0 ∷ 0 ∷ 0 ∷ 0 ∷ []) src in
      let summed : xorchecksum src ≡ some (complement words) = rw (xorchecksum, whole) refl in
      let e : complement words ≡ w = some_inj.0 (sym summed ∙ h) in
      four w (
        ap length (sym e)
        ∙ length-complement words
        ∙ length-xor_words (0 ∷ 0 ∷ 0 ∷ 0 ∷ []) src refl)
  | inr ragged ↦
      let missing : xorchecksum src ≡ none = rw (xorchecksum, ragged) refl in cc (sym missing ∙ h)
]
