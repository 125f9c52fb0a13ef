-- ===== src/Mme/Decode.antt =====
-- HPAV_DECODE_MME_IMPL and HPAV_SMART_COPY_IMPL of hpav_test/libhpav/hpav_mme.h, and
-- HPAV_DECODE_MTK_MME_IMPL of hpav_test/libhpav_mtk/hpav_mtk_mme.c.
use tulum_utils.Base.{ℕ, ◌+◌, ◌-◌, ◌%◌, Bytes, ◌∷◌, [], List, Option, some, ◌>>=◌, copy_out, drop}
use tulum_utils.Frame.Layout.{MmePacket, mme_header_size, mtk_mme_header_size}

-- A smart copy reads the fields of an answer from the bytes behind the header, given their number
-- as the code computes it; reading past the last of them faults.
abbrev pub SmartCopy {ℓ} : Type ℓ → Type ℓ
SmartCopy A = Bytes → ℕ → Option A

-- An answer at user level: its fields, and the address of the station that sent it.
pub record Answer {ℓ} (A : Type ℓ) : Type ℓ where
  pub fields : A
  pub sta_mac_addr : Bytes

-- The copy for structs of fixed size: `size` is sizeof(struct) less the pointer and the address at
-- its end. The number of bytes that came is not looked at.
unfoldable pub smart_copy : ℕ → SmartCopy Bytes
smart_copy size mme_data mme_data_size = copy_out 0 size mme_data

module _ {ℓ} {A : Type ℓ} (smart_copy_mme : SmartCopy A) where
  -- A packet read past a header; the size left is an unsigned int.
  unfoldable pub decode_packet : ℕ → MmePacket → Option (Answer A)
  decode_packet header_size p = do
    fields ←
        smart_copy_mme (drop header_size p.data_bytes)
          ((p.data_size + (4294967296 - header_size)) % 4294967296)
    some (record { fields = fields; sta_mac_addr = p.src })

  unfoldable pub decode_packets : ℕ → List MmePacket → Option (List (Answer A))
  decode_packets header_size [] = some []
  decode_packets header_size (p ∷ ps) = do
    new_mme ← decode_packet header_size p
    rest ← decode_packets header_size ps
    some (new_mme ∷ rest)

  unfoldable pub decode_mme : List MmePacket → Option (List (Answer A))
  decode_mme = decode_packets mme_header_size

  -- The header is followed by the three bytes of an OUI.
  unfoldable pub decode_mtk_mme : List MmePacket → Option (List (Answer A))
  decode_mtk_mme = decode_packets mtk_mme_header_size
