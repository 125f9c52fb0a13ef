-- ===== src/Frame/Layout.antt =====
-- The packed structs of hpav_test/libhpav/hpav_api.h and hpav_mme.h: sizes, field offsets, and the
-- records that stand for a frame and for a management message.
use tulum_utils.Base.{ℕ, ◌+◌, ◌≡◌, Bytes, byte_at, le16_at, slice, length, replicate}

abbrev pub eth_mac_address_size : ℕ
eth_mac_address_size = 6

abbrev pub eth_frame_min_size : ℕ
eth_frame_min_size = 60

abbrev pub eth_frame_max_payload : ℕ
eth_frame_max_payload = 1500

-- sizeof(struct hpav_eth_header): two addresses and the type.
abbrev pub eth_header_size : ℕ
eth_header_size = 14

-- sizeof(struct hpav_mme_header): mmv, mmtype, fmi_nf_fn, fmi_fmsn.
abbrev pub mme_header_size : ℕ
mme_header_size = 5

-- sizeof(struct hpav_mtk_mme_header): the same, and a vendor's OUI of three bytes.
abbrev pub mtk_mme_header_size : ℕ
mtk_mme_header_size = 8

-- sizeof(struct hpav_mme_frame): a header, and the largest member of the union, which is
-- hpav_cm_amp_map_req with 2 + 2000 bytes.
abbrev pub mme_frame_size : ℕ
mme_frame_size = 2007

-- The part of a struct hpav_eth_frame that holds network data, ahead of `frame_size`.
abbrev pub wire_size : ℕ
wire_size = eth_header_size + mme_frame_size

pub record Timeval : Type 0 where
  pub tv_sec : ℕ
  pub tv_usec : ℕ

-- `wire` holds the header and the MME, in the order of the network.
pub record EthFrame : Type 0 where
  pub wire : Bytes
  pub frame_size : ℕ
  pub ts : Timeval

-- A frame that memset has cleared.
unfoldable pub zero_frame : EthFrame
zero_frame = record {
  wire = replicate wire_size 0;
  frame_size = 0;
  ts = record { tv_sec = 0; tv_usec = 0 };
}

abbrev pub dst_mac_addr : EthFrame → Bytes
dst_mac_addr f = slice 0 6 f.wire

abbrev pub src_mac_addr : EthFrame → Bytes
src_mac_addr f = slice 6 6 f.wire

abbrev pub ether_type : EthFrame → Bytes
ether_type f = slice 12 2 f.wire

abbrev pub mmv : EthFrame → ℕ
mmv f = byte_at f.wire 14

abbrev pub mmtype : EthFrame → ℕ
mmtype f = le16_at f.wire 15

abbrev pub fmi_nf_fn : EthFrame → ℕ
fmi_nf_fn f = byte_at f.wire 17

abbrev pub fmi_fmsn : EthFrame → ℕ
fmi_fmsn f = byte_at f.wire 18

-- A struct hpav_mme_packet; a chain of them is a list.
pub record MmePacket : Type 0 where
  pub data_size : ℕ
  pub data_bytes : Bytes
  pub dst : Bytes
  pub src : Bytes

-- The buffer has the size that the packet states, and the addresses have six bytes.
pub record IsPacket (p : MmePacket) : Type 0 where
  pub sized : length p.data_bytes ≡ p.data_size
  pub dst_sized : length p.dst ≡ eth_mac_address_size
  pub src_sized : length p.src ≡ eth_mac_address_size
