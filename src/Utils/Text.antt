-- ===== src/Utils/Text.antt =====
-- Addresses, network identifiers, keys and message types as text: hpav_mactos and its inverses
-- (hpav_test/libhpav/hpav_utils.c), string_to_binary_data (hpav_test/hpav_test/util.c).
use tulum_utils.Base.{
  ℕ, zero, suc, ◌+◌, ◌*◌, ◌/◌, ◌≡◌, refl, ap, ◌∙◌, inl, inr, arith, ◌==◌, if◌then◌else◌, Option,
  none, some, [], ◌∷◌, ◌++◌, Bytes, IsByte, All, codes, length, byte_at, slice, drop, replicate,
  take_all, sym, map, ◌<◌, ◌%◌, List, leb, String,
}
use tulum_utils.Libc.Hex.{
  lower, hex2, hex_bytes, scan_byte, scan_bytes, Separates, scan_bytes-hex_bytes, hex_rest,
  scan_byte-hex2,
}
use Prim.Native.String.{◌++◌ as ◌<>◌}
use tulum_utils.Errors.{ErrorStack, add_error, category_input, module_core}

abbrev colon : Bytes
colon = 58 ∷ []

-- What the calls of sprintf write into `out`.
unfoldable pub mactos : Bytes → Bytes
mactos mac_address = hex_bytes lower colon (slice 0 6 mac_address)

unfoldable pub nidtos : Bytes → Bytes
nidtos nid = hex_bytes lower colon (slice 0 7 nid)

unfoldable pub cidtos : Bytes → Bytes
cidtos cid = hex_bytes lower colon (slice 0 2 cid)

unfoldable pub md5sumtos : Bytes → Bytes
md5sumtos md5sum = hex_bytes lower [] (slice 0 16 md5sum)

unfoldable pub aeskeytos : Bytes → Bytes
unfolding md5sumtos
aeskeytos aeskey = md5sumtos aeskey

-- The six bytes of `out`, or false, which leaves `out` alone.
unfoldable pub stomac : Bytes → Option Bytes
stomac mac_addr =
    let temp_buff = scan_bytes colon none 6 mac_addr in
    if length temp_buff == 6 then some temp_buff else none

-- The bytes of `out`, all zero if the text has too few numbers.
unfoldable pub stonid : Bytes → Bytes
stonid nid =
    let temp_buff = scan_bytes colon none 7 nid in
    if length temp_buff == 7 then temp_buff else replicate 7 0

unfoldable pub stocid : Bytes → Bytes
stocid cid =
    let temp_buff = scan_bytes colon none 2 cid in
    if length temp_buff == 2 then temp_buff else replicate 2 0

unfoldable pub stomd5sum : Bytes → Bytes
stomd5sum md5sum =
    let temp_buff = scan_bytes [] (some 2) 16 md5sum in
    if length temp_buff == 16 then temp_buff else replicate 16 0

-- What hpav_stommtype returns, stores and leaves on the error stack.
pub record Mmtype : Type 0 where
  pub code : ℕ
  pub mmtype : Option ℕ
  pub errors : ErrorStack

-- A text longer than `buffer` has room for faults.
unfoldable pub stommtype : String → ErrorStack → Option Mmtype
stommtype mmtype error_stack =
    let temp_buff = scan_bytes colon (some 2) 2 (codes mmtype) in
    if length temp_buff == 2
    then some (record {
      code = 0;
      mmtype = some (256 * byte_at temp_buff 0 + byte_at temp_buff 1);
      errors = error_stack;
    })
    else if leb (27 + length (codes mmtype) + 2 + 1) 128
    then some (record {
      code = 2;
      mmtype = none;
      errors =
          add_error error_stack category_input module_core 2
            (some "sscanf failed on input in hpav_stommtype")
            (some ("Cannot read MME type from <" <> mmtype <> ">\n"));
    })
    else none

-- The conversion %2hhx at the start of a text; a byte that it does not match is not written.
scan_one : Bytes → Option ℕ
scan_one s = elim (scan_byte (some 2) s) [ none ↦ none | some (b, r) ↦ some b ]

binary_loop : ℕ → Bytes → List (Option ℕ)
unfolding scan_one
binary_loop zero input = []
binary_loop (suc n) input = scan_one input ∷ binary_loop n (drop 2 input)

-- The bytes of `result_data`, as many as *data_size says.
unfoldable pub string_to_binary_data : Bytes → List (Option ℕ)
unfolding binary_loop
string_to_binary_data input = binary_loop (length input / 2) input

-- A list of the length asked for is itself.
kept : (n : ℕ) (bs d : Bytes) → length bs ≡ n → (if length bs == n then bs else d) ≡ bs
kept n bs d h = ground arith

slice_all : (n : ℕ) (bs : Bytes) → length bs ≡ n → slice 0 n bs ≡ bs
slice_all n bs h = take_all n bs (omega arith)

scanned :
    (sep : Bytes) (w : Option ℕ) (n : ℕ) (bs : Bytes)
    → Separates sep w
    → All IsByte bs
    → length bs ≡ n
    → scan_bytes sep w n (hex_bytes lower sep (slice 0 n bs)) ≡ bs
scanned sep w n bs sep_ok all h = rw (slice_all n bs h) (
    ap (λ k. scan_bytes sep w k (hex_bytes lower sep bs)) (sym h)
    ∙ scan_bytes-hex_bytes sep w lower bs sep_ok all)

pub stomac_lem : (mac : Bytes) → All IsByte mac → length mac ≡ 6 → stomac (mactos mac) ≡ some mac
unfolding stomac mactos Separates
stomac_lem mac all six = rw (scanned colon none 6 mac (inr (refl, refl)) all six) (ground arith)

-- An address of six bytes, printed by hpav_mactos, is what hpav_stomac reads; and likewise for
-- network identifiers of seven bytes, client identifiers of two, and checksums of sixteen.
pub stomac-mactos :
    (mac nid cid md5sum : Bytes)
    → All IsByte mac
    → All IsByte nid
    → All IsByte cid
    → All IsByte md5sum
    → length mac ≡ 6
    → length nid ≡ 7
    → length cid ≡ 2
    → length md5sum ≡ 16
    → (stomac (mactos mac) ≡ some mac)
      × (stonid (nidtos nid) ≡ nid)
      × (stocid (cidtos cid) ≡ cid)
      × (stomd5sum (md5sumtos md5sum) ≡ md5sum)
unfolding stomac mactos stonid nidtos stocid cidtos stomd5sum md5sumtos Separates
stomac-mactos mac nid cid md5sum mac_bytes nid_bytes cid_bytes md5_bytes six seven two sixteen = (
  stomac_lem mac mac_bytes six,
  rw (scanned colon none 7 nid (inr (refl, refl)) nid_bytes seven) (kept 7 nid _ seven),
  rw (scanned colon none 2 cid (inr (refl, refl)) cid_bytes two) (kept 2 cid _ two),
  rw (scanned [] (some 2) 16 md5sum refl md5_bytes sixteen) (kept 16 md5sum _ sixteen),
)

-- Without separators, the separated bytes are the bytes.
hex_rest_nil : (bs : Bytes) → hex_bytes lower [] bs ≡ hex_rest lower [] bs
hex_rest_nil [] = refl
hex_rest_nil (b ∷ bs) = refl

length-hex_rest : (bs : Bytes) → length (hex_rest lower [] bs) ≡ 2 * length bs
length-hex_rest [] = refl
length-hex_rest (b ∷ bs) = omega (arith, length-hex_rest bs)

scan_one-hex2 : (b : ℕ) (r : Bytes) → b < 256 → scan_one (hex2 lower b ++ r) ≡ some b
unfolding scan_one
scan_one-hex2 b r h = rw (scan_one, scan_byte-hex2 (some 2) lower b r h (inl refl)) refl

binary_loop-hex_rest :
    (bs : Bytes) → All IsByte bs → binary_loop (length bs) (hex_rest lower [] bs) ≡ map some bs
unfolding binary_loop
binary_loop-hex_rest [] all = refl
binary_loop-hex_rest (b ∷ bs) all =
    λ i. scan_one-hex2 b (hex_rest lower [] bs) all.0 i ∷ binary_loop-hex_rest bs all.1 i

-- The binary data of any bytes written as pairs of hexadecimal digits is those bytes, all of them
-- written; and a message type written as two bytes with a colon is read as that type, with no error.
pub string_to_binary_data-hex :
    (bs : Bytes) (mmtype : String) (t : ℕ) (error_stack : ErrorStack)
    → All IsByte bs
    → t < 65536
    → codes mmtype ≡ hex_bytes lower (58 ∷ []) (t / 256 ∷ t % 256 ∷ [])
    → (string_to_binary_data (hex_bytes lower [] bs) ≡ map some bs)
      × (stommtype mmtype error_stack
          ≡ some (record { code = 0; mmtype = some t; errors = error_stack }))
unfolding string_to_binary_data stommtype Separates
string_to_binary_data-hex bs mmtype t error_stack all h text =
    let n : length (hex_rest lower [] bs) / 2 ≡ length bs = omega (arith, length-hex_rest bs) in
    let exact : 256 * (t / 256) + t % 256 ≡ t = omega arith in
    let read : scan_bytes colon (some 2) 2 (codes mmtype) ≡ t / 256 ∷ t % 256 ∷ [] = rw text (
      scan_bytes-hex_bytes colon (some 2) lower (t / 256 ∷ t % 256 ∷ []) (inl refl)
        (omega arith, (omega arith, tt))) in
    (rw (hex_rest_nil bs, n) (binary_loop-hex_rest bs all), rw (read, exact) refl)
