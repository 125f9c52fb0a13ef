-- ===== src/Utils/Names.antt =====
-- Names of messages: hpav_mme_category_tos, hpav_mme_subtype_tos and hpav_mmetypetos
-- (hpav_test/libhpav/hpav_utils.c).
use tulum_utils.Base.{
  ℕ, ◌-◌, ◌/◌, ◌%◌, ◌==◌, ◌||◌, if◌then◌else◌, List, [], ◌∷◌, ◌++◌, Bytes, codes, String,
}
use tulum_utils.Libc.Hex.{upper, hex2}
use tulum_utils.Libc.Decimal.{decimal}
use tulum_utils.Utils.Origin.{oui_to_origin, mtk_mme, category_of}

-- What is written into `out`; the number of an unknown category is below 2^31.
unfoldable pub mme_category_tos : ℕ → Bytes
mme_category_tos mme_category =
    if mme_category == 0
    then codes "CC"
    else if mme_category == 1
    then codes "CP"
    else if mme_category == 2
    then codes "NN"
    else if mme_category == 3
    then codes "CM"
    else if mme_category == 4
    then codes "MS"
    else if mme_category == 5
    then codes "VS"
    else codes "Unknow category (" ++ decimal mme_category ++ codes ")"

unfoldable pub mme_subtype_tos : ℕ → Bytes
mme_subtype_tos mme_subtype =
    if mme_subtype == 0
    then codes "REQ"
    else if mme_subtype == 1
    then codes "CNF"
    else if mme_subtype == 2
    then codes "IND"
    else if mme_subtype == 3
    then codes "RSP"
    else codes "Unknow subtype (" ++ decimal mme_subtype ++ codes ")"

-- The conversion 0X%04X of 16 bits.
type_number : ℕ → Bytes
type_number t = codes "0X" ++ hex2 upper (t / 256) ++ hex2 upper (t % 256)

-- The names in the two inner switches.
cm_names : List (ℕ × String)
cm_names = (0x6004, "CM_ENCRYPTED_PAYLOAD") ∷ (0x6008, "CM_SET_KEY") ∷ (0x601C, "CM_AMP_MAP") ∷ []

mtk_names : List (ℕ × String)
mtk_names =
    (0xA000, "VS_GET_VERSION")
    ∷ (0xA008, "VS_RESET")
    ∷ (0xA108, "VS_GET_NVRAM")
    ∷ (0xA01C, "VS_GET_TONEMASK")
    ∷ (0xA020, "VS_GET_ETH_PHY")
    ∷ (0xA024, "VS_ETH_STATS")
    ∷ (0xA030, "VS_GET_STATUS")
    ∷ (0xA034, "VS_GET_TONEMAP")
    ∷ (0xA100, "VS_SET_CAPTURE_STATE")
    ∷ (0xA038, "VS_GET_SNR")
    ∷ (0xA040, "VS_GET_LINK_STATS")
    ∷ (0xA104, "VS_SET_NVRAM")
    ∷ (0xA118, "VS_PWM_GENERATION")
    ∷ []

-- A switch over the message types, whose default is the number.
type_name : List (ℕ × String) → ℕ → Bytes
type_name [] t = type_number t
type_name ((v, name) ∷ names) t = if t == v then codes name else type_name names t

-- The names that go with a category, and, for messages of manufacturers and vendors, an OUI.
names_of : ℕ → Bytes → List (ℕ × String)
names_of category oui =
    if category == 3
    then cm_names
    else if category == 4 || category == 5
    then elim (oui_to_origin oui) [ mtk_mme ↦ mtk_names | _ ↦ [] ]
    else []

-- A message type is 16 bits: the two lowest are the subtype, the three highest the category.
unfoldable pub mmetypetos : ℕ → Bytes → Bytes
unfolding type_name names_of type_number cm_names mtk_names
mmetypetos mme_type oui =
    let mme_subtype = mme_type % 4 in
    let mme_main_type = mme_type - mme_type % 4 in
    type_name (names_of (category_of mme_type) oui) mme_main_type
    ++ codes "."
    ++ mme_subtype_tos mme_subtype
