-- ===== src/Conf/Pack.antt =====
-- The loops of conf_file_modify_psd_cali that take a map of backoffs from its words and put it into words.
use Prim.Native.Nat.{bit_or}
use tulum_utils.Base.{
  ℕ, zero, suc, ◌+◌, ◌*◌, ◌^◌, ◌≤◌, ◌<◌, ◌≡◌, refl, ap, ◌∙◌, arith, List, [], ◌∷◌, ◌++◌, All,
  length, drop, length-drop,
}
use tulum_utils.Base.BitOr.{shift_left, bit_or_lem}
use tulum_utils.Conf.Carriers.{word_backoffs, unpack, shifted, or_backoffs, pack}

-- Four bits.
abbrev pub IsBackoff : ℕ → Type 0
IsBackoff b = b < 16

shifted_lem : (b s : ℕ) → shifted 32 b s ≡ b * 2 ^ s
shifted_lem b s = ground arith

-- One more backoff, below the digits that are there.
or_step :
    (k s q b : ℕ) {x : ℕ} (t u : ℕ)
    → x ≡ t
    → t ≡ shift_left k q
    → b * 2 ^ s < shift_left k 1
    → u ≡ t + b * 2 ^ s
    → bit_or x (shifted 32 b s) ≡ u
or_step k s q b {x} t u e places small sum =
    (λ i. bit_or ((e ∙ places) i) (shifted_lem b s i))
    ∙ bit_or_lem k q (b * 2 ^ s) small
    ∙ omega arith

word_lem :
    (a b c d e f g h : ℕ) (bs : List ℕ)
    → All IsBackoff (a ∷ b ∷ c ∷ d ∷ e ∷ f ∷ g ∷ h ∷ bs)
    → or_backoffs 32 0 8 0 (a ∷ b ∷ c ∷ d ∷ e ∷ f ∷ g ∷ h ∷ bs)
      ≡ 268435456 * a + 16777216 * b + 1048576 * c + 65536 * d + 4096 * e + 256 * f + 16 * g + h
unfolding or_backoffs
word_lem a b c d e f g h bs all =
    let t1 =
      or_step 32 28 (0) a (0) (268435456 * a) refl (omega arith) (omega arith) (omega arith) in
    let t2 =
      or_step 28 24 (1 * a) b (268435456 * a) (268435456 * a + 16777216 * b) t1 (omega arith)
        (omega arith) (omega arith) in
    let t3 =
      or_step 24 20 (16 * a + 1 * b) c (268435456 * a + 16777216 * b)
        (268435456 * a + 16777216 * b + 1048576 * c) t2 (omega arith) (omega arith) (omega arith) in
    let t4 =
      or_step 20 16 (256 * a + 16 * b + 1 * c) d (268435456 * a + 16777216 * b + 1048576 * c)
        (268435456 * a + 16777216 * b + 1048576 * c + 65536 * d) t3 (omega arith) (omega arith)
        (omega arith) in
    let t5 =
      or_step 16 12 (4096 * a + 256 * b + 16 * c + 1 * d) e
        (268435456 * a + 16777216 * b + 1048576 * c + 65536 * d)
        (268435456 * a + 16777216 * b + 1048576 * c + 65536 * d + 4096 * e) t4 (omega arith)
        (omega arith) (omega arith) in
    let t6 =
      or_step 12 8 (65536 * a + 4096 * b + 256 * c + 16 * d + 1 * e) f
        (268435456 * a + 16777216 * b + 1048576 * c + 65536 * d + 4096 * e)
        (268435456 * a + 16777216 * b + 1048576 * c + 65536 * d + 4096 * e + 256 * f) t5
        (omega arith) (omega arith) (omega arith) in
    let t7 =
      or_step 8 4 (1048576 * a + 65536 * b + 4096 * c + 256 * d + 16 * e + 1 * f) g
        (268435456 * a + 16777216 * b + 1048576 * c + 65536 * d + 4096 * e + 256 * f)
        (268435456 * a + 16777216 * b + 1048576 * c + 65536 * d + 4096 * e + 256 * f + 16 * g) t6
        (omega arith) (omega arith) (omega arith) in
    let t8 =
      or_step 4 0 (16777216 * a + 1048576 * b + 65536 * c + 4096 * d + 256 * e + 16 * f + 1 * g) h
        (268435456 * a + 16777216 * b + 1048576 * c + 65536 * d + 4096 * e + 256 * f + 16 * g)
        (268435456 * a
          + 16777216 * b
          + 1048576 * c
          + 65536 * d
          + 4096 * e
          + 256 * f
          + 16 * g
          + 1 * h)
        t7 (omega arith) (omega arith) (omega arith) in
    t8 ∙ omega arith

-- The backoffs of a word are those that it was made of.
word_backoffs-word :
    (a b c d e f g h : ℕ) (bs : List ℕ)
    → All IsBackoff (a ∷ b ∷ c ∷ d ∷ e ∷ f ∷ g ∷ h ∷ bs)
    → word_backoffs (or_backoffs 32 0 8 0 (a ∷ b ∷ c ∷ d ∷ e ∷ f ∷ g ∷ h ∷ bs))
      ≡ a ∷ b ∷ c ∷ d ∷ e ∷ f ∷ g ∷ h ∷ []
word_backoffs-word a b c d e f g h bs all = rw (word_lem a b c d e f g h bs all) (ground arith)

-- A word is smaller than a double's exact whole numbers.
pub word_bound : (bs : List ℕ) → All IsBackoff bs → 8 ≤ length bs → or_backoffs 32 0 8 0 bs < 2 ^ 53
word_bound (a ∷ b ∷ c ∷ d ∷ e ∷ f ∷ g ∷ h ∷ bs) all len =
    omega (arith, word_lem a b c d e f g h bs all)
word_bound _ all len = absurd (omega arith)

-- A map of eight backoffs for each word, packed into words, is unpacked from them, if an unsigned
-- long has 32 bits and tmp_amp_map is 0 before the first word.
pub unpack-pack :
    (n : ℕ) (bs : List ℕ) → All IsBackoff bs → length bs ≡ 8 * n → unpack (pack 32 0 n bs) ≡ bs
unfolding pack
unpack-pack zero [] all h = refl
unpack-pack (suc n) (a ∷ b ∷ c ∷ d ∷ e ∷ f ∷ g ∷ h ∷ bs) all len =
    let (_, (_, (_, (_, (_, (_, (_, (_, rest)))))))) = all in
    (λ i. word_backoffs-word a b c d e f g h bs all i ++ unpack-pack n bs rest (omega arith) i)
unpack-pack _ _ all h = absurd (omega arith)

-- What a map that is packed, and one that is unpacked, are like.
pub All-unpack : (ws : List ℕ) → All IsBackoff (unpack ws)
All-unpack [] = tt
All-unpack (w ∷ ws) = (
  omega arith,
  (
    omega arith,
    (
      omega arith,
      (omega arith, (omega arith, (omega arith, (omega arith, (omega arith, All-unpack ws))))),
    ),
  ),
)

pub length-unpack : (ws : List ℕ) → length (unpack ws) ≡ 8 * length ws
length-unpack [] = refl
length-unpack (w ∷ ws) = omega (arith, length-unpack ws)

pub length-pack : (n : ℕ) (bs : List ℕ) → length (pack 32 0 n bs) ≡ n
unfolding pack
length-pack zero bs = refl
length-pack (suc n) bs = ap suc (length-pack n (drop 8 bs))

All-drop : (n : ℕ) (bs : List ℕ) → All IsBackoff bs → All IsBackoff (drop n bs)
All-drop zero bs all = all
All-drop (suc n) [] all = tt
All-drop (suc n) (b ∷ bs) all = All-drop n bs all.1

pub All-pack :
    (n : ℕ) (bs : List ℕ)
    → All IsBackoff bs
    → length bs ≡ 8 * n
    → All (λ w. w < 2 ^ 53) (pack 32 0 n bs)
unfolding pack
All-pack zero bs all h = tt
All-pack (suc n) bs all h = (
  word_bound bs all (omega arith),
  All-pack n (drop 8 bs) (All-drop 8 bs all) (omega (arith, length-drop 8 bs)),
)
