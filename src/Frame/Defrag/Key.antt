-- ===== src/Frame/Defrag/Key.antt =====
-- The unique identifier by which hpav_defrag_add_to_group_list compares frames.
use tulum_utils.Base.{ℕ, Bytes, true, ◌≡◌, ◌↔◌, arith, bytes_eq_iff}
use tulum_utils.Frame.Layout.{EthFrame, dst_mac_addr, src_mac_addr, mmv, mmtype, fmi_fmsn}
use tulum_utils.Frame.Defrag.{same_key}

-- Destination, source, version, type and sequence number.
pub record FragKey : Type 0 where
  pub dst : Bytes
  pub src : Bytes
  pub version : ℕ
  pub kind : ℕ
  pub sequence : ℕ

abbrev pub frag_key : EthFrame → FragKey
frag_key f = record {
  dst = dst_mac_addr f;
  src = src_mac_addr f;
  version = mmv f;
  kind = mmtype f;
  sequence = fmi_fmsn f;
}

same_key→frag_key : (g f : EthFrame) → same_key g f ≡ true → frag_key g ≡ frag_key f
unfolding same_key
same_key→frag_key g f h = ground (
  arith,
  bytes_eq_iff (dst_mac_addr g) (dst_mac_addr f),
  bytes_eq_iff (src_mac_addr g) (src_mac_addr f),
)

same_key_refl : (f : EthFrame) → same_key f f ≡ true
unfolding same_key
same_key_refl f = ground (
  arith,
  bytes_eq_iff (dst_mac_addr f) (dst_mac_addr f),
  bytes_eq_iff (src_mac_addr f) (src_mac_addr f),
)

same_key_of : (g f : EthFrame) → frag_key g ≡ frag_key f → same_key g f ≡ true
unfolding same_key
same_key_of g f h = ground (
  arith,
  bytes_eq_iff (dst_mac_addr g) (dst_mac_addr f),
  bytes_eq_iff (src_mac_addr g) (src_mac_addr f),
)

-- The code's test is equality of the five fields.
pub same_key_iff : (g f : EthFrame) → (same_key g f ≡ true) ↔ (frag_key g ≡ frag_key f)
same_key_iff g f = (same_key→frag_key g f, same_key_of g f)

-- Frames that agree are alike for every third frame.
pub same_key_cong : (g f x : EthFrame) → same_key g f ≡ true → same_key g x ≡ same_key f x
same_key_cong g f x h = ground (arith, same_key_iff g f, same_key_iff g x, same_key_iff f x)

pub same_key_sym : (g f : EthFrame) → same_key g f ≡ same_key f g
same_key_sym g f = ground (arith, same_key_iff g f, same_key_iff f g)
