-- ===== src/Conf/Print.antt =====
-- What conf_file_parse prints of a document: the functions conf_file_parse_*, with their texts.
use tulum_utils.Base.{
  ℕ, zero, suc, ◌+◌, ◌-◌, ◌*◌, ◌/◌, ◌%◌, ◌^◌, ◌&&◌, ltb, leb, ◌==◌, if◌then◌else◌, Option, none,
  some, List, String, Bytes, codes, [], ◌≡◌, refl, ◌∷◌, ◌++◌,
}
use tulum_utils.Base.Int.{ℤ, pos, negsuc}
use tulum_utils.Libc.Hex.{upper, hex_bytes}
use tulum_utils.Libc.Decimal.{decimal, print_int}
use tulum_utils.Conf.Json.{Json}

abbrev colon : Bytes
colon = 58 ∷ []

-- A text and the end of its line.
line : Bytes → Bytes
line text = text ++ (10 ∷ [])

-- The lowest six bytes, the greatest first.
abbrev pub mac_bytes : ℕ → Bytes
mac_bytes value =
    value / 1099511627776 % 256
    ∷ value / 4294967296 % 256
    ∷ value / 16777216 % 256
    ∷ value / 65536 % 256
    ∷ value / 256 % 256
    ∷ value % 256
    ∷ []

-- The lowest seven bytes, the least first.
abbrev pub nid_bytes : ℕ → Bytes
nid_bytes value =
    value % 256
    ∷ value / 256 % 256
    ∷ value / 65536 % 256
    ∷ value / 16777216 % 256
    ∷ value / 4294967296 % 256
    ∷ value / 1099511627776 % 256
    ∷ value / 281474976710656 % 256
    ∷ []

-- The four bytes of a word, the least first.
abbrev pub word_bytes : ℕ → Bytes
word_bytes nmk = nmk % 256 ∷ nmk / 256 % 256 ∷ nmk / 65536 % 256 ∷ nmk / 16777216 % 256 ∷ []

-- printf's %s of a null pointer, in the GNU library.
or_null : Option Bytes → Bytes
or_null none = codes "(null)"
or_null (some text) = text

-- -1 is no truth value; any other number but 0 is true.
truth_text : ℤ → Bytes
truth_text (negsuc zero) = codes "parse failed!"
truth_text (pos zero) = codes "false"
truth_text _ = codes "true"

-- An unsigned number of 32 bits, printed as an int.
abbrev pub as_int : ℕ → ℤ
as_int n = if ltb n (2 ^ 31) then pos n else negsuc (2 ^ 32 - 1 - n)

-- The subtraction is of unsigned numbers and wraps.
unfoldable pub psd_text : ℕ → Bytes
psd_text afe =
    if leb afe 15
    then print_int (as_int ((2 ^ 32 - 50 + (2 ^ 32 - (15 - afe) * 3)) % 2 ^ 32)) ++ codes " dBm/Hz"
    else codes "parse failed!"

spi_text : ℕ → Bytes
spi_text spi_clock =
    if spi_clock == 1
    then codes "6 MHz"
    else if spi_clock == 2
    then codes "6.25 MHz"
    else if spi_clock == 3
    then codes "6.85 MHz"
    else if spi_clock == 4
    then codes "7.14 MHz"
    else codes "parse SPI slave input clock failed!"

-- The bytes of words, one after another.
abbrev pub key_bytes : List ℕ → Bytes
key_bytes [] = []
key_bytes (w ∷ ws) = word_bytes w ++ key_bytes ws

module _ (J : Json) where
  open J use {Doc, Ref, to_int, get_object, get_array, get_number, array_number}
  open J use {get_boolean, get_string}

  -- A number of the document, as an unsigned number.
  abbrev pub number_at : Doc → Option Ref → String → ℕ
  number_at d object key = to_int (get_number d object key)

  unfoldable pub parse_version : Option Ref → Doc → Bytes
  unfolding line
  parse_version object d = line (
      codes "Version                                              : "
      ++ decimal (number_at d object "version")
      ++ codes "."
      ++ decimal (number_at d object "sub_version"))

  unfoldable pub parse_mac : Option Ref → Doc → Bytes
  unfolding line
  parse_mac object d = line (
      codes "MAC Address                                          : "
      ++ hex_bytes upper colon (mac_bytes (number_at d object "mac")))

  -- The words of an array from index `i` on.
  abbrev pub words_from : Doc → Option Ref → ℕ → ℕ → List ℕ
  words_from d array i zero = []
  words_from d array i (suc n) = to_int (array_number d array i) ∷ words_from d array (suc i) n

  nmk_text : Option Ref → Doc → Bytes
  nmk_text none d = codes "parse failed!"
  nmk_text (some array) d = hex_bytes upper colon (key_bytes (words_from d (some array) 0 4))

  unfoldable pub parse_nmk : Option Ref → Doc → Bytes
  unfolding line nmk_text
  parse_nmk object d = line (
      codes "NMK                                                  : "
      ++ nmk_text (get_array d object "nmk") d)

  nid_text : ℕ → Bytes
  nid_text value =
      if value == 0 then codes "auto-gen by NMK" else hex_bytes upper colon (nid_bytes value)

  unfoldable pub parse_nid : Option Ref → Doc → Bytes
  unfolding line nid_text
  parse_nid object d = line (
      codes "Network ID                                           : "
      ++ nid_text (number_at d object "nid"))

  -- An identifier of 0 is one that follows from the key.
  pub parse_nid_zero :
      (object : Option Ref) (d : Doc)
      → number_at d object "nid" ≡ 0
      → parse_nid object d
        ≡ codes "Network ID                                           : auto-gen by NMK"
          ++ (10 ∷ [])
  unfolding parse_nid nid_text
  parse_nid_zero object d h = rw (parse_nid, h) refl

  unfoldable pub parse_role : Option Ref → Doc → Bytes
  unfolding line or_null
  parse_role object d = line (
      codes "Role(cco : EVSE, sta : PEV)                          : "
      ++ or_null (get_string d object "force_role"))

  unfoldable pub parse_hfids : Option Ref → Doc → Bytes
  unfolding line or_null
  parse_hfids object d =
      line (
        codes "AVLN(network) HFID                                   : "
        ++ or_null (get_string d object "avln_hfid"))
      ++ line (
          codes "Manufacturer-set HFID                                : "
          ++ or_null (get_string d object "m_hfid"))
      ++ line (
          codes "User-set HFID                                        : "
          ++ or_null (get_string d object "u_hfid"))

  unfoldable pub parse_enable_nvram : Option Ref → Doc → Bytes
  unfolding line truth_text
  parse_enable_nvram object d = line (
      codes "Enable NVRAM                                         : "
      ++ truth_text (get_boolean d object "use_nvram"))

  unfoldable pub parse_store_key_change : Option Ref → Doc → Bytes
  unfolding line truth_text
  parse_store_key_change object d = line (
      codes "Store Key Change                                     : "
      ++ truth_text (get_boolean d object "host_set_key_save"))

  unfoldable pub parse_psd_limit : Option Ref → Doc → Bytes
  unfolding line psd_text
  parse_psd_limit object d = line (
      codes "PSD Limit                                            : "
      ++ psd_text (number_at d object "direct_afe_tx_idx"))

  -- For an index of at most 15.
  pub parse_psd_limit_text :
      (object : Option Ref) (d : Doc) (afe : ℕ)
      → number_at d object "direct_afe_tx_idx" ≡ afe
      → parse_psd_limit object d
        ≡ codes "PSD Limit                                            : "
          ++ psd_text afe
          ++ (10 ∷ [])
  unfolding parse_psd_limit
  parse_psd_limit_text object d afe h = rw (parse_psd_limit, h) refl

  -- Without the object, the failure is printed, and the number read of a null pointer as well.
  missing_text : Option Ref → Bytes
  missing_text none = codes "parse SPI slave input clock failed!" ++ (10 ∷ [])
  missing_text (some eos) = []

  unfoldable pub parse_spi_slave_clk : Option Ref → Doc → Bytes
  unfolding line spi_text missing_text
  parse_spi_slave_clk object d =
      let eos = get_object d object "eos" in
      codes "SPI Slave Input Clock                                : "
      ++ missing_text eos
      ++ line (spi_text (number_at d eos "spi_clock_idx"))

  -- What the whole command prints of a document with its objects.
  abbrev pub report : Option Ref → Option Ref → Option Ref → Option Ref → Doc → Bytes
  report inka hpav cp phy d =
      (10 ∷ [])
      ++ parse_version inka d
      ++ parse_enable_nvram inka d
      ++ parse_mac inka d
      ++ parse_nmk hpav d
      ++ parse_nid hpav d
      ++ parse_role cp d
      ++ parse_hfids hpav d
      ++ parse_store_key_change hpav d
      ++ parse_psd_limit phy d
      ++ (if number_at d inka "version" == 4 && ltb 0 (number_at d inka "sub_version")
          then parse_spi_slave_clk inka d
          else [])
      ++ (10 ∷ [])
