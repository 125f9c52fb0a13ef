-- ===== src/Frame/Header.antt =====
-- hpav_setup_mme_header and the fields of the fragment byte (hpav_test/libhpav/hpav_mme.c).
use tulum_utils.Base.{ℕ, ◌+◌, ◌*◌, ◌/◌, ◌%◌, ◌<◌, ◌≡◌, arith, Bytes, le16, ◌∷◌, ◌++◌, []}

pub record MmeHeader : Type 0 where
  pub mmv : ℕ
  pub mmtype : ℕ
  pub fmi_nf_fn : ℕ
  pub fmi_fmsn : ℕ

-- The header as it lies in the frame.
abbrev pub header_bytes : MmeHeader → Bytes
header_bytes h = h.mmv ∷ (le16 h.mmtype ++ (h.fmi_nf_fn ∷ h.fmi_fmsn ∷ []))

-- MME_HEADER_MMV_HPAV11
abbrev pub mmv_hpav11 : ℕ
mmv_hpav11 = 1

-- (x & MME_HEADER_NUM_FRAGMENTS_MASK) >> MME_HEADER_NUM_FRAGMENTS_SHIFT
unfoldable pub num_fragments_of : ℕ → ℕ
num_fragments_of nf_fn = nf_fn % 16

-- (x & MME_HEADER_FRAGMENT_NUMBER_MASK) >> MME_HEADER_FRAGMENT_NUMBER_SHIFT
unfoldable pub fragment_number_of : ℕ → ℕ
fragment_number_of nf_fn = nf_fn / 16 % 16

-- The arguments are unsigned int; each field keeps the bits that fit in it, and the two masked
-- values have no bit in common, so that `|` adds them.
unfoldable pub setup_mme_header : ℕ → ℕ → ℕ → ℕ → MmeHeader
setup_mme_header mme_type num_fragments fragment_num fragment_sequence_number = record {
  mmv = mmv_hpav11;
  mmtype = mme_type;
  fmi_nf_fn = num_fragments % 16 + fragment_num % 16 * 16;
  fmi_fmsn = fragment_sequence_number % 256;
}

-- Whatever is passed, the fragment byte is a byte; reading the two fields back gives the low four
-- bits of the two numbers, so numbers below 16 come back as they were passed.
pub fields-setup_mme_header :
    (t nf fn sn : ℕ)
    → ((setup_mme_header t nf fn sn).fmi_nf_fn < 256)
      × (num_fragments_of (setup_mme_header t nf fn sn).fmi_nf_fn ≡ nf % 16)
      × (fragment_number_of (setup_mme_header t nf fn sn).fmi_nf_fn ≡ fn % 16)
unfolding setup_mme_header num_fragments_of fragment_number_of
fields-setup_mme_header t nf fn sn = omega arith
