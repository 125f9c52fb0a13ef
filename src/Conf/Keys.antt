-- ===== src/Conf/Keys.antt =====
-- Addresses and keys: conf_file_modify_mac and conf_file_modify_nmk against conf_file_parse_mac and
-- conf_file_parse_nmk.
use tulum_utils.Base.{
  ℕ, zero, suc, ◌+◌, ◌*◌, ◌^◌, ◌≤◌, ◌<◌, ◌≡◌, ◌≢◌, refl, sym, subst, ap, ◌∙◌, inl, arith, ltb, leb,
  ◌&&◌, if◌then◌else◌, Option, some, List, [], ◌∷◌, ◌++◌, Bytes, IsByte, All, codes, length, drop,
  length-drop, drop-drop, get_or-drop, byte_at, le32_at, >>=-eq-some, String,
}
use tulum_utils.Libc.Hex.{lower, upper, hex_bytes, scan_bytes, scan_bytes-hex_bytes, Separates}
use tulum_utils.Utils.Text.{mactos, stomac_lem}
use tulum_utils.Conf.Json.{Json, IsLawful}
use tulum_utils.Conf.Fields.{Context, done, mac_value, modify_mac, modify_nmk, replace_words}
use tulum_utils.Conf.Print.{
  mac_bytes, word_bytes, key_bytes, words_from, parse_mac, parse_nmk, parse_nid, parse_nid_zero,
}

abbrev colon : Bytes
colon = 58 ∷ []

mac_bytes-mac_value :
    (mac : Bytes) → All IsByte mac → length mac ≡ 6 → mac_bytes (mac_value mac) ≡ mac
mac_bytes-mac_value (a ∷ b ∷ c ∷ d ∷ e ∷ f ∷ []) all six = ground arith
mac_bytes-mac_value _ all six = absurd (omega arith)

-- Four bytes make a word, and the word those bytes.
word_bytes-le32_at :
    (bs : Bytes) → All IsByte bs → 4 ≤ length bs → word_bytes (le32_at bs 0) ++ drop 4 bs ≡ bs
word_bytes-le32_at (a ∷ b ∷ c ∷ d ∷ bs) all h = ground arith
word_bytes-le32_at _ all h = absurd (omega arith)

byte_at_bound : (bs : Bytes) (i : ℕ) → All IsByte bs → byte_at bs i < 256
byte_at_bound [] i all = omega arith
byte_at_bound (b ∷ bs) zero all = all.0
byte_at_bound (b ∷ bs) (suc i) all = byte_at_bound bs i all.1

All-drop : (n : ℕ) (bs : Bytes) → All IsByte bs → All IsByte (drop n bs)
All-drop zero bs all = all
All-drop (suc n) [] all = tt
All-drop (suc n) (b ∷ bs) all = All-drop n bs all.1

-- The words of a string of bytes.
abbrev words_of : ℕ → Bytes → List ℕ
words_of zero bs = []
words_of (suc n) bs = le32_at bs 0 ∷ words_of n (drop 4 bs)

key_bytes-words_of :
    (n : ℕ) (bs : Bytes) → All IsByte bs → length bs ≡ 4 * n → key_bytes (words_of n bs) ≡ bs
key_bytes-words_of zero [] all h = refl
key_bytes-words_of zero (b ∷ bs) all h = absurd (omega arith)
key_bytes-words_of (suc n) bs all h =
    ap (◌++◌ (word_bytes (le32_at bs 0)))
      (key_bytes-words_of n (drop 4 bs) (All-drop 4 bs all) (omega (arith, length-drop 4 bs)))
    ∙ word_bytes-le32_at bs all (omega arith)

le32_at-drop : (k : ℕ) (bs : Bytes) → le32_at (drop k bs) 0 ≡ le32_at bs k
le32_at-drop k bs =
    ground (
      arith,
      get_or-drop k 0 bs 0,
      get_or-drop k 1 bs 0,
      get_or-drop k 2 bs 0,
      get_or-drop k 3 bs 0,
    )

-- Six bytes are fewer than a double holds.
mac_value_bound : (mac : Bytes) → All IsByte mac → length mac ≡ 6 → mac_value mac < 2 ^ 53
mac_value_bound (a ∷ b ∷ c ∷ d ∷ e ∷ f ∷ []) all six = omega arith
mac_value_bound _ all six = absurd (omega arith)

-- And four bytes too.
le32_at_bound : (bs : Bytes) (i : ℕ) → All IsByte bs → le32_at bs i < 2 ^ 53
le32_at_bound bs i all = omega (
  arith,
  byte_at_bound bs i all,
  byte_at_bound bs (i + 1) all,
  byte_at_bound bs (i + 2) all,
  byte_at_bound bs (i + 2 + 1) all,
)

nid-ne-nmk : ◌≢◌ {A = String} "nid" "nmk"
nid-ne-nmk e = let second : ◌≡◌ {A = ℕ} 105 109 = ap (λ s. byte_at (codes s) 1) e in omega arith

-- The printed lines.
abbrev pub mac_line : Bytes → Bytes
mac_line mac =
    codes "MAC Address                                          : "
    ++ hex_bytes upper colon mac
    ++ (10 ∷ [])

abbrev pub nmk_line : Bytes → Bytes
nmk_line nmk =
    codes "NMK                                                  : "
    ++ hex_bytes upper colon nmk
    ++ (10 ∷ [])

abbrev pub auto_line : Bytes
auto_line =
    codes "Network ID                                           : auto-gen by NMK" ++ (10 ∷ [])

module _ (J : Json) (L : IsLawful J) where
  open J use {Doc, Ref, Double, of_int, to_int, get_array, array_number, set_number, replace_number}

  -- After the words have been replaced, the places of the key hold them, and the others what they did.
  number-replace_words :
      (a : Ref) (nmk : Bytes) (n i j : ℕ) (d d' : Doc)
      → replace_words J (some a) nmk i n d ≡ some d'
      → array_number d' (some a) j ≡ (
          if leb i j && ltb j (i + n)
          then of_int (le32_at nmk (4 * j))
          else array_number d (some a) j)
  unfolding replace_words
  number-replace_words a nmk zero i j d d' h = ground arith
  number-replace_words a nmk (suc n) i j d d' h =
      let (d1, first, rest) = >>=-eq-some (replace_number d (some a) i _) _ h in
      ground (
        arith,
        number-replace_words a nmk n (suc i) j d1 d' rest,
        L.number-replace_number d d1 a i (of_int (le32_at nmk (4 * i))) j first,
      )

  array-replace_words :
      (a : Ref) (nmk : Bytes) (n i : ℕ) (d d' : Doc) (p : Option Ref) (key : String)
      → replace_words J (some a) nmk i n d ≡ some d'
      → get_array d' p key ≡ get_array d p key
  unfolding replace_words
  array-replace_words a nmk zero i d d' p key h = ground arith
  array-replace_words a nmk (suc n) i d d' p key h =
      let (d1, first, rest) = >>=-eq-some (replace_number d (some a) i _) _ h in
      array-replace_words a nmk n (suc i) d1 d' p key rest
      ∙ L.array-replace_number d d1 a i (of_int (le32_at nmk (4 * i))) p key first

  words_from-words_of :
      (array : Option Ref) (bs : Bytes) (n i : ℕ) (d : Doc)
      → ((j : ℕ) → j < i + n → to_int (array_number d array j) ≡ le32_at bs (4 * j))
      → words_from J d array i n ≡ words_of n (drop (4 * i) bs)
  words_from-words_of array bs zero i d h = refl
  words_from-words_of array bs (suc n) i d h =
      let next : 4 * i + 4 ≡ 4 * suc i = omega arith in
      let rest =
        words_from-words_of array bs n (suc i) d (λ j lt. h j (omega arith))
        ∙ ap (λ k. words_of n (drop k bs)) (sym next)
        ∙ ap (words_of n) (sym (drop-drop 4 (4 * i) bs)) in
      ap (λ w. w ∷ words_from J d array (suc i) n)
        (h i (omega arith) ∙ sym (le32_at-drop (4 * i) bs))
      ∙ ap (◌∷◌ (le32_at (drop (4 * i) bs) 0)) rest

  -- An address of six bytes, given as hpav_mactos writes it, is the one that is printed, in capitals.
  pub parse_mac-modify_mac :
      (ctx : Context Ref) (mac : Bytes) (d d' : Doc)
      → All IsByte mac
      → length mac ≡ 6
      → set_number d ctx.inka_obj "mac" (of_int (mac_value mac)) ≡ some d'
      → (modify_mac J ctx (mactos mac) d ≡ done d') × (parse_mac J ctx.inka_obj d' ≡ mac_line mac)
  unfolding modify_mac parse_mac
  parse_mac-modify_mac ctx mac d d' all six h =
      let small = mac_value_bound mac all six in
      let value =
        ap to_int (L.get-set_number d d' ctx.inka_obj "mac" _ h)
        ∙ L.to_int-of_int (mac_value mac) small in
      (
        rw (modify_mac, stomac_lem mac all six, h) refl,
        ap (λ v. mac_line (mac_bytes v)) value ∙ ap mac_line (mac_bytes-mac_value mac all six),
      )

  -- A key of sixteen bytes, given as bytes with colons, is the one that is printed, in capitals, and
  -- the identifier of the network is printed as one that follows from the key.
  pub parse_nmk-modify_nmk :
      (ctx : Context Ref) (nmk : Bytes) (a : Ref) (d d1 d2 : Doc)
      → All IsByte nmk
      → length nmk ≡ 16
      → get_array d ctx.inka_hpav_obj "nmk" ≡ some a
      → replace_words J (some a) nmk 0 4 d ≡ some d1
      → set_number d1 ctx.inka_hpav_obj "nid" (of_int 0) ≡ some d2
      → (modify_nmk J ctx (hex_bytes lower colon nmk) d ≡ done d2)
        × (parse_nmk J ctx.inka_hpav_obj d2 ≡ nmk_line nmk)
        × (parse_nid J ctx.inka_hpav_obj d2 ≡ auto_line)
  unfolding modify_nmk parse_nmk Separates
  parse_nmk-modify_nmk ctx nmk a d d1 d2 all sixteen array words nid =
      let read : scan_bytes colon (some 2) 16 (hex_bytes lower colon nmk) ≡ nmk =
        subst (λ n. scan_bytes colon (some 2) n (hex_bytes lower colon nmk) ≡ nmk) sixteen
          (scan_bytes-hex_bytes colon (some 2) lower nmk (inl refl) all) in
      let array1 = array-replace_words a nmk 4 0 d d1 ctx.inka_hpav_obj "nmk" words ∙ array in
      let array2 =
        L.array-set_number d1 d2 ctx.inka_hpav_obj ctx.inka_hpav_obj "nid" "nmk" a (of_int 0) nid
          nid-ne-nmk array1 in
      let word : (j : ℕ) → j < 4 → to_int (array_number d2 (some a) j) ≡ le32_at nmk (4 * j) =
        λ j h.
          ap to_int (
            L.number-set_number d1 d2 ctx.inka_hpav_obj ctx.inka_hpav_obj "nid" "nmk" a j (of_int 0)
              nid nid-ne-nmk array1
            ∙ number-replace_words a nmk 4 0 j d d1 words
            ∙ ground arith)
          ∙ L.to_int-of_int (le32_at nmk (4 * j)) (le32_at_bound nmk (4 * j) all) in
      let words2 = words_from-words_of (some a) nmk 4 0 d2 word in
      (
        rw (modify_nmk, read, sixteen, array, words, nid) refl,
        rw (parse_nmk, array2)
            (ap (λ ws. nmk_line (key_bytes ws)) words2
              ∙ ap nmk_line (key_bytes-words_of 4 nmk all sixteen)),
        parse_nid_zero J ctx.inka_hpav_obj d2 (
            ap to_int (L.get-set_number d1 d2 ctx.inka_hpav_obj "nid" (of_int 0) nid)
            ∙ L.to_int-of_int 0 (omega arith)),
      )
