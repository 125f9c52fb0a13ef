-- ===== src/Frame/Build.antt =====
-- hpav_build_frames (hpav_test/libhpav/hpav_mme.c): one frame for a message that fits.
pub mod Spec
use tulum_utils.Base.{
  ℕ, ◌+◌, Bytes, leb, ltb, if◌then◌else◌, ◌∷◌, ◌++◌, [], List, Option, some, ◌>>=◌, copy_onto,
  copy_out,
}
use tulum_utils.Frame.Layout.{
  EthFrame, MmePacket, zero_frame, eth_header_size, eth_frame_max_payload,
}

-- The header that the code writes: the two addresses, and the type of an MME.
abbrev pub eth_header : MmePacket → Bytes
eth_header p = p.dst ++ (p.src ++ (0x88 ∷ 0xE1 ∷ []))

abbrev pub at_least : ℕ → ℕ → ℕ
at_least min_size size = if ltb size min_size then min_size else size

-- `none` is a fault in the copy of the message; `some []` is the NULL of a message that needs
-- fragmentation, which is not supported.
unfoldable pub build_frames : MmePacket → ℕ → Option (List EthFrame)
build_frames p min_size =
    if leb p.data_size eth_frame_max_payload
    then (do
      mme ← copy_out 0 p.data_size p.data_bytes
      wire ← copy_onto (eth_header p ++ mme) zero_frame.wire
      some (
          record zero_frame {
            wire = wire;
            frame_size = at_least min_size (eth_header_size + p.data_size);
          }
          ∷ []))
    else some []
