-- ===== src/Conf/Fields.antt =====
-- Changes of single fields: the functions conf_file_modify_* but for the calibration.
use tulum_utils.Base.{
  ℕ, zero, suc, ◌+◌, ◌-◌, ◌*◌, ◌/◌, ◌%◌, true, false, ◌||◌, ◌&&◌, ltb, ◌==◌, if◌then◌else◌, Option,
  none, some, String, Bytes, codes, bytes_eq, byte_at, le32_at, length, [], ◌∷◌, ◌>>=◌,
}
use tulum_utils.Base.Int.{ℤ, pos, negsuc}
use tulum_utils.Libc.Hex.{scan_bytes}
use tulum_utils.Libc.Decimal.{atoi}
use tulum_utils.Utils.Text.{stomac}
use tulum_utils.Conf.Json.{Json}

-- What a change returns: 0 with the changed document, or another code, where `failed n` is -(n + 1). The
-- codes are -1 for a value that is refused, -2 for a failure of libjson, -3 for a file that cannot be
-- opened.
pub data Outcome {ℓ} (A : Type ℓ) : Type ℓ where
  done : A → Outcome A
  failed : ℕ → Outcome A

abbrev pub refused {ℓ} : {A : Type ℓ} → Outcome A
refused = failed 0

-- if (JSONFailure == ...) return -2; return 0;
abbrev pub json_result {ℓ} : {A : Type ℓ} → Option A → Outcome A
json_result none = failed 1
json_result (some d) = done d

-- struct conf_file_modify_t, of pointers that may be null.
pub record Context (R : Type 0) : Type 0 where
  pub inka_obj : Option R
  pub inka_hpav_obj : Option R
  pub inka_cp_obj : Option R
  pub inka_phy_obj : Option R

-- Six bytes, the first of the greatest value.
abbrev pub mac_value : Bytes → ℕ
mac_value mac =
    1099511627776 * byte_at mac 0
    + 4294967296 * byte_at mac 1
    + 16777216 * byte_at mac 2
    + 65536 * byte_at mac 3
    + 256 * byte_at mac 4
    + byte_at mac 5

-- The index for a limit of `val` dBm/Hz: -50, -53 and so on down to -95.
unfoldable pub psd_index : ℤ → Option ℕ
psd_index (pos n) = none
psd_index (negsuc n) =
    if ltb n 49 || ltb 94 n
    then none
    else if (n - 49) % 3 == 0
    then some (15 - (n - 49) / 3)
    else none

module _ (J : Json) where
  open J use {Doc, Ref, of_int, to_int, get_object, get_array, get_number}
  open J use {set_number, set_boolean, set_string, replace_number}

  -- The two names of a truth value.
  modify_boolean : Option Ref → String → Bytes → Doc → Outcome Doc
  modify_boolean o key value d =
      if bytes_eq value (codes "true")
      then json_result (set_boolean d o key true)
      else if bytes_eq value (codes "false")
      then json_result (set_boolean d o key false)
      else refused

  unfoldable pub modify_enable_nvram : Context Ref → Bytes → Doc → Outcome Doc
  unfolding modify_boolean
  modify_enable_nvram ctx value d = modify_boolean ctx.inka_obj "use_nvram" value d

  unfoldable pub modify_mac : Context Ref → Bytes → Doc → Outcome Doc
  modify_mac ctx value d = elim (stomac value) [
    | none ↦ refused
    | some mac ↦ json_result (set_number d ctx.inka_obj "mac" (of_int (mac_value mac)))
  ]

  -- The words of the key from index `i` on.
  unfoldable pub replace_words : Option Ref → Bytes → ℕ → ℕ → Doc → Option Doc
  replace_words array nmk i zero d = some d
  replace_words array nmk i (suc n) d = do
    d' ← replace_number d array i (of_int (le32_at nmk (4 * i)))
    replace_words array nmk (suc i) n d'

  -- The identifier of the network is cleared with a new key.
  unfoldable pub modify_nmk : Context Ref → Bytes → Doc → Outcome Doc
  modify_nmk ctx value d =
      let nmk = scan_bytes (58 ∷ []) (some 2) 16 value in
      if length nmk == 16
      then json_result (
          replace_words (get_array d ctx.inka_hpav_obj "nmk") nmk 0 4 d >>= λ d'.
          set_number d' ctx.inka_hpav_obj "nid" (of_int 0))
      else refused

  unfoldable pub modify_role : Context Ref → Bytes → Doc → Outcome Doc
  modify_role ctx value d =
      if bytes_eq value (codes "cco") || bytes_eq value (codes "sta")
      then json_result (set_string d ctx.inka_cp_obj "force_role" value)
      else refused

  -- The three names of at most 64 characters.
  modify_hfid : Option Ref → String → Bytes → Doc → Outcome Doc
  modify_hfid o key value d =
      if ltb 64 (length value) then refused else json_result (set_string d o key value)

  unfoldable pub modify_avln_hfid : Context Ref → Bytes → Doc → Outcome Doc
  unfolding modify_hfid
  modify_avln_hfid ctx value d = modify_hfid ctx.inka_hpav_obj "avln_hfid" value d

  unfoldable pub modify_m_hfid : Context Ref → Bytes → Doc → Outcome Doc
  unfolding modify_hfid
  modify_m_hfid ctx value d = modify_hfid ctx.inka_hpav_obj "m_hfid" value d

  unfoldable pub modify_u_hfid : Context Ref → Bytes → Doc → Outcome Doc
  unfolding modify_hfid
  modify_u_hfid ctx value d = modify_hfid ctx.inka_hpav_obj "u_hfid" value d

  unfoldable pub modify_store_key_change : Context Ref → Bytes → Doc → Outcome Doc
  unfolding modify_boolean
  modify_store_key_change ctx value d = modify_boolean ctx.inka_hpav_obj "host_set_key_save" value d

  unfoldable pub modify_psd_limit : Context Ref → Bytes → Doc → Outcome Doc
  modify_psd_limit ctx value d = elim (psd_index (atoi value)) [
    | none ↦ refused
    | some psd_limit ↦
        json_result (set_number d ctx.inka_phy_obj "direct_afe_tx_idx" (of_int psd_limit))
  ]

  -- The index, if it is one of the four and the document has the object for it.
  spi_index : Option Ref → ℤ → Doc → Outcome Doc
  spi_index none n d = refused
  spi_index (some eos) (negsuc n) d = refused
  spi_index (some eos) (pos n) d =
      if ltb n 1 || ltb 4 n
      then refused
      else json_result (set_number d (some eos) "spi_clock_idx" (of_int n))

  -- For another version nothing is changed, and the result is 0 all the same.
  unfoldable pub modify_spi_slave_clk : Context Ref → Bytes → Doc → Outcome Doc
  unfolding spi_index
  modify_spi_slave_clk ctx value d =
      let version = to_int (get_number d ctx.inka_obj "version") in
      let sub_version = to_int (get_number d ctx.inka_obj "sub_version") in
      if version == 4 && ltb 0 sub_version
      then spi_index (get_object d ctx.inka_obj "eos") (atoi value) d
      else done d
