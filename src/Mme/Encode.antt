-- ===== src/Mme/Encode.antt =====
-- HPAV_ENCODE_MME_IMPL of hpav_test/libhpav/hpav_mme.h, its two variants for vendors in
-- hpav_test/libhpav_mtk/hpav_mtk_mme.c, and the two encoders of hpav_test/libhpav/hpav_mme.c whose
-- messages vary in size. A request is given by the bytes of its struct, which is packed.
use tulum_utils.Base.{
  ℕ, ◌+◌, ◌/◌, ◌%◌, Bytes, ◌∷◌, ◌++◌, [], Option, some, ◌>>=◌, le16, copy_out, length,
}
use tulum_utils.Frame.Layout.{MmePacket}
use tulum_utils.Frame.Header.{header_bytes, mmv_hpav11}

-- A packet whose buffer holds `bytes`.
abbrev pub packet_of : Bytes → Bytes → Bytes → MmePacket
packet_of bytes sta_mac_addr src_mac_addr = record {
  data_size = length bytes;
  data_bytes = bytes;
  dst = sta_mac_addr;
  src = src_mac_addr;
}

-- The header of a message that is not fragmented.
abbrev pub whole_header : ℕ → Bytes
whole_header mme_type =
    header_bytes (record { mmv = mmv_hpav11; mmtype = mme_type; fmi_nf_fn = 0x00; fmi_fmsn = 0x00 })

unfoldable pub encode_mme : ℕ → Bytes → Bytes → Bytes → MmePacket
encode_mme mme_type request sta_mac_addr src_mac_addr =
    packet_of (whole_header mme_type ++ request) sta_mac_addr src_mac_addr

abbrev pub mstar_oui : Bytes
mstar_oui = 0x00 ∷ 0x13 ∷ 0xD7 ∷ []

abbrev pub jiangsu_oui : Bytes
jiangsu_oui = 0x4A ∷ 0x53 ∷ 0x43 ∷ []

unfoldable pub encode_mtk_mme : ℕ → Bytes → Bytes → Bytes → MmePacket
encode_mtk_mme mme_type request sta_mac_addr src_mac_addr =
    packet_of (whole_header mme_type ++ mstar_oui ++ request) sta_mac_addr src_mac_addr

unfoldable pub encode_jiangsu_mme : ℕ → Bytes → Bytes → Bytes → MmePacket
encode_jiangsu_mme mme_type request sta_mac_addr src_mac_addr =
    packet_of (whole_header mme_type ++ jiangsu_oui ++ request) sta_mac_addr src_mac_addr

abbrev pub mmtype_cm_amp_map_req : ℕ
mmtype_cm_amp_map_req = 0x601C

-- `map_data` is the array of the struct; two carriers share a byte.
unfoldable pub encode_cm_amp_map_req : ℕ → Bytes → Bytes → Bytes → Option MmePacket
encode_cm_amp_map_req map_length map_data sta_mac_addr src_mac_addr = do
  effective ← copy_out 0 (map_length / 2 + map_length % 2) map_data
  some (
      packet_of (whole_header mmtype_cm_amp_map_req ++ le16 map_length ++ effective) sta_mac_addr
        src_mac_addr)
