-- ===== src/Nvram/Write.antt =====
-- test_nvram_write: the request that is made of a file.
use tulum_utils.Base.{
  ℕ, ◌%◌, ◌≤◌, ◌<◌, ◌≡◌, refl, sym, subst, ap, ◌∙◌, arith, false, ◌||◌, ltb, ◌==◌, if◌then◌else◌,
  Option, none, some, List, [], ◌∷◌, ◌++◌, Bytes, IsByte, All, length, take, drop, length-append,
  length-drop, take-append,
}
use tulum_utils.Base.Int.{ℤ, pos, negsuc}
use tulum_utils.Utils.Text.{stomac}
use tulum_utils.Access.Checksum.{
  xorchecksum, xorchecksum-append, xorchecksum-some, xorchecksum_word,
}

-- struct hpav_mtk_vs_set_nvram_req; the four bytes of the checksum as they lie in it.
pub record SetNvramReq : Type 0 where
  pub block_index : ℕ
  pub nvram_size : ℕ
  pub checksum : Bytes
  pub data_bytes : Bytes

-- htonl on a machine whose words begin with the least byte.
abbrev pub htonl : Bytes → Bytes
htonl (a ∷ b ∷ c ∷ d ∷ []) = d ∷ c ∷ b ∷ a ∷ []
htonl w = w

-- The request to an address, or the result with which the function returns before it sends one.
pub data Prepared : Type 0 where
  ends : ℤ → Prepared
  sends : Bytes → SetNvramReq → Prepared

-- `garbage` is what the data of the request holds before, of which the file covers the first bytes.
unfoldable pub with_checksum : Bytes → Bytes → Bytes → Option Bytes → Prepared
with_checksum garbage dest_mac file none = ends (negsuc 0)
with_checksum garbage dest_mac file (some checksum) = sends dest_mac (record {
  block_index = 0;
  nvram_size = length file;
  checksum = htonl checksum;
  data_bytes = file ++ drop (length file) garbage;
})

unfoldable pub prepare_file : Bytes → Bytes → Option Bytes → Prepared
prepare_file garbage dest_mac none = ends (negsuc 0)
prepare_file garbage dest_mac (some file) =
    if length file == 0 || ltb 1024 (length file)
    then ends (negsuc 0)
    else with_checksum garbage dest_mac file (xorchecksum file)

unfoldable pub prepare_address : Bytes → Option Bytes → Option Bytes → Prepared
prepare_address garbage none file = ends (pos 2)
prepare_address garbage (some dest_mac) file = prepare_file garbage dest_mac file

unfoldable pub prepare_write : Bytes → List Bytes → Option Bytes → Prepared
prepare_write garbage (mac ∷ name ∷ rest) file = prepare_address garbage (stomac mac) file
prepare_write garbage _ file = ends (pos 2)

-- The call of hpav_mtk_vs_set_nvram_sndrcv: it fails, has no answer, or one with a result.
pub data Reply : Type 0 where
  failure no_answer : Reply
  answer : ℕ → Reply

-- The result in the answer is only printed.
abbrev pub reply_code : Reply → ℤ
reply_code failure = pos 1
reply_code no_answer = pos 1
reply_code (answer result) = pos 0

-- The result of the command, and the request if one is sent.
unfoldable pub test_nvram_write :
    Bytes → (Bytes → SetNvramReq → Reply) → List Bytes → Option Bytes → ℤ × Option SetNvramReq
test_nvram_write garbage sndrcv argv file = elim (prepare_write garbage argv file) [
  | ends code ↦ (code, none)
  | sends dest_mac req ↦ (reply_code (sndrcv dest_mac req), some req)
]

htonl-htonl : (src w : Bytes) → xorchecksum src ≡ some w → htonl (htonl w) ≡ w
htonl-htonl src w h =
    let (a, b, c, d, e) = xorchecksum_word src w h in subst (λ v. htonl (htonl v) ≡ v) (sym e) refl

-- A file of 1 to 1024 bytes, in whole words, is put at the start of the data of a request to the given
-- address, with its size; with the checksum of the request turned back behind it, it has the checksum 0.
pub prepare_write_lem :
    (garbage text mac name file : Bytes)
    → stomac text ≡ some mac
    → All IsByte file
    → length garbage ≡ 1024
    → 0 < length file
    → length file ≤ 1024
    → length file % 4 ≡ 0
    → (req : SetNvramReq) × (prepare_write garbage (text ∷ name ∷ []) (some file) ≡ sends mac req)
      × (req.nvram_size ≡ length file)
      × (length req.data_bytes ≡ 1024)
      × (take (length file) req.data_bytes ≡ file)
      × (xorchecksum (file ++ htonl req.checksum) ≡ some (0 ∷ 0 ∷ 0 ∷ 0 ∷ []))
unfolding prepare_write prepare_address prepare_file with_checksum
prepare_write_lem garbage text mac name file address all room some_bytes most whole =
    let (w, sum) = xorchecksum-some file whole in
    let not_empty : (length file == 0) ≡ false = ground arith in
    let not_large : ltb 1024 (length file) ≡ false = ground arith in
    (
      record {
        block_index = 0;
        nvram_size = length file;
        checksum = htonl w;
        data_bytes = file ++ drop (length file) garbage;
      },
      rw (prepare_write, address, prepare_file, not_empty, not_large, sum) refl,
      refl,
      omega (
        arith,
        length-append file (drop (length file) garbage),
        length-drop (length file) garbage,
      ),
      take-append (length file) file (drop (length file) garbage) refl,
      ap (λ c. xorchecksum (file ++ c)) (htonl-htonl file w sum)
          ∙ xorchecksum-append file w all sum,
    )
