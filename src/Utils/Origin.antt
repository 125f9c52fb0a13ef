-- ===== src/Utils/Origin.antt =====
-- The origin of a message and the tables of names (hpav_test/libhpav/hpav_utils.c).
use tulum_utils.Base.{
  ℕ, ◌+◌, ◌*◌, ◌/◌, ◌%◌, ◌≤◌, ◌<◌, ◌≡◌, refl, arith, ◌&&◌, leb, ◌==◌, if◌then◌else◌, Bytes,
  bytes_eq, le16_at, ◌∷◌, ◌++◌, [], List, Option, some, none, ◌>>=◌, true, false, copy_out,
  copy_out_lem, String,
}
use tulum_utils.Mme.Encode.{encode_mme, encode_mtk_mme, encode_jiangsu_mme, mstar_oui, jiangsu_oui}

-- HPAV_UNKNOWN_VENDOR_MME and so on
pub data Origin : Type 0 where
  unknown_vendor_mme : Origin
  standard_mme : Origin
  mtk_mme : Origin
  intellon_mme : Origin
  gigle_mme : Origin
  arkados_mme : Origin
  stmicro_mme : Origin

unfoldable pub oui_to_origin : Bytes → Origin
oui_to_origin oui =
    if bytes_eq oui mstar_oui
    then mtk_mme
    else if bytes_eq oui (0x00 ∷ 0xB0 ∷ 0x52 ∷ [])
    then intellon_mme
    else if bytes_eq oui (0x00 ∷ 0x1F ∷ 0x84 ∷ [])
    then gigle_mme
    else if bytes_eq oui (0x00 ∷ 0x80 ∷ 0xE1 ∷ [])
    then arkados_mme
    else if bytes_eq oui (0x00 ∷ 0x13 ∷ 0x34 ∷ [])
    then stmicro_mme
    else unknown_vendor_mme

-- (mmtype & 0xE000) >> 13, for a type of 16 bits
abbrev pub category_of : ℕ → ℕ
category_of mmtype = mmtype / 8192 % 8

-- What hpav_guess_mme_category returns and stores.
pub record Guess : Type 0 where
  pub origin : Origin
  pub mme_category : ℕ
  pub oui : Bytes
  pub mme_header_size : ℕ

-- The categories up to 3 are standard ones, and 4 and 5 those of manufacturers and vendors; for
-- these the OUI behind the header is read, and a read past the message faults.
unfoldable pub guess_mme_category : Bytes → Option Guess
guess_mme_category mme_frame = do
  mmtype ← copy_out 1 2 mme_frame
  let category = category_of (le16_at mmtype 0)
  let unknown : Guess = record {
    origin = unknown_vendor_mme;
    mme_category = category;
    oui = 0 ∷ 0 ∷ 0 ∷ [];
    mme_header_size = 0;
  }
  if leb category 3
      then some (record {
        origin = standard_mme;
        mme_category = category;
        oui = 0 ∷ 0 ∷ 0 ∷ [];
        mme_header_size = 5;
      })
      else if leb category 5
      then (do
        oui ← copy_out 5 3 mme_frame
        some (
            if bytes_eq oui mstar_oui
            then record {
              origin = mtk_mme;
              mme_category = category;
              oui = mstar_oui;
              mme_header_size = 8;
            }
            else unknown))
      else some unknown

-- hpav_get_value_str; a null table is `none`.
pub find_value : ℕ → List (ℕ × String) → String
find_value value [] = "Unknown"
find_value value ((v, text) ∷ entries) = if v == value then text else find_value value entries

unfoldable pub get_value_str : ℕ → Option (List (ℕ × String)) → String
get_value_str value none = "Unknown"
get_value_str value (some entries) = find_value value entries

-- hpav_get_range_value_str; an entry has the least and the greatest value.
pub find_range : ℕ → List (ℕ × ℕ × String) → String
find_range value [] = "Unknown"
find_range value ((least, greatest, text) ∷ entries) =
    if leb least value && leb value greatest then text else find_range value entries

unfoldable pub get_range_value_str : ℕ → Option (List (ℕ × ℕ × String)) → String
get_range_value_str value none = "Unknown"
get_range_value_str value (some entries) = find_range value entries

-- The type and the OUI in a message.
read_type :
    (m t nf sn : ℕ) (rest : Bytes)
    → t < 65536
    → copy_out 1 2 (m ∷ t % 256 ∷ t / 256 % 256 ∷ nf ∷ sn ∷ rest)
      ≡ some (t % 256 ∷ t / 256 % 256 ∷ [])
read_type m t nf sn rest h = copy_out_lem 1 2 _ (omega arith)

read_oui :
    (m a b nf sn x y z : ℕ) (rest : Bytes)
    → copy_out 5 3 (m ∷ a ∷ b ∷ nf ∷ sn ∷ x ∷ y ∷ z ∷ rest) ≡ some (x ∷ y ∷ z ∷ [])
read_oui m a b nf sn x y z rest = copy_out_lem 5 3 _ (omega arith)

category_lem : (t : ℕ) → t < 65536 → category_of (t % 256 + 256 * (t / 256 % 256)) ≡ t / 8192
category_lem t h = omega arith

-- What the encoder for standard messages builds is recognised as one with a header of five bytes,
-- and what the encoder for Mstar builds as one of Mstar with a header of eight, if the types are of
-- such categories; what the encoder for JiangSu builds is of an unknown vendor.
pub guess_mme_category-encode_mme :
    (standard vendor : ℕ) (request sta src : Bytes)
    → standard < 32768
    → 32768 ≤ vendor
    → vendor < 49152
    → (guess_mme_category (encode_mme standard request sta src).data_bytes
        ≡ some (record {
          origin = standard_mme;
          mme_category = standard / 8192;
          oui = 0 ∷ 0 ∷ 0 ∷ [];
          mme_header_size = 5;
        }))
      × (guess_mme_category (encode_mtk_mme vendor request sta src).data_bytes
          ≡ some (record {
            origin = mtk_mme;
            mme_category = vendor / 8192;
            oui = mstar_oui;
            mme_header_size = 8;
          }))
      × (guess_mme_category (encode_jiangsu_mme vendor request sta src).data_bytes
          ≡ some (record {
            origin = unknown_vendor_mme;
            mme_category = vendor / 8192;
            oui = 0 ∷ 0 ∷ 0 ∷ [];
            mme_header_size = 0;
          }))
unfolding guess_mme_category encode_mme encode_mtk_mme encode_jiangsu_mme bytes_eq
guess_mme_category-encode_mme standard vendor request sta src small least most =
    let standard_category : leb (standard / 8192) 3 ≡ true = ground arith in
    let not_standard : leb (vendor / 8192) 3 ≡ false = ground arith in
    let vendor_category : leb (vendor / 8192) 5 ≡ true = ground arith in
    let standard_type = category_lem standard (omega arith) in
    let vendor_type = category_lem vendor (omega arith) in
    (
      rw (read_type 1 standard 0 0 request (omega arith), standard_type, standard_category) refl,
      rw
          (
            read_type 1 vendor 0 0 (mstar_oui ++ request) (omega arith),
            vendor_type,
            not_standard,
            vendor_category,
            read_oui 1 (vendor % 256) (vendor / 256 % 256) 0 0 0x00 0x13 0xD7 request,
          )
          refl,
      rw
          (
            read_type 1 vendor 0 0 (jiangsu_oui ++ request) (omega arith),
            vendor_type,
            not_standard,
            vendor_category,
            read_oui 1 (vendor % 256) (vendor / 256 % 256) 0 0 0x4A 0x53 0x43 request,
          )
          refl,
    )
