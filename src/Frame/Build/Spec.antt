-- ===== src/Frame/Build/Spec.antt =====
-- What hpav_build_frames returns, for every packet whose buffer has the size that it states.
use tulum_utils.Base.{
  ℕ, ◌+◌, ◌-◌, ◌≤◌, ◌<◌, ◌≡◌, refl, ap, ◌∙◌, arith, ◌∷◌, ◌++◌, [], some, copy_onto, copy_out,
  copy_out_lem, copy_onto_lem, length, length-append, length-replicate, drop-replicate, replicate,
  take_all, le→leb,
}
use tulum_utils.Frame.Layout.{
  EthFrame, MmePacket, zero_frame, eth_header_size, wire_size, mme_frame_size, IsPacket,
}
use tulum_utils.Frame.Build.{build_frames, eth_header, at_least}

-- The frame of a message: its header, the message, and zeros up to the end of the struct.
unfoldable pub built : MmePacket → ℕ → EthFrame
built p min_size = record {
  wire = (eth_header p ++ p.data_bytes) ++ replicate (mme_frame_size - p.data_size) 0;
  frame_size = at_least min_size (eth_header_size + p.data_size);
  ts = record { tv_sec = 0; tv_usec = 0 };
}

pub length-eth_header : (p : MmePacket) → IsPacket p → length (eth_header p) ≡ eth_header_size
length-eth_header p w = omega (
  arith,
  length-append p.dst (p.src ++ (0x88 ∷ 0xE1 ∷ [])),
  length-append p.src (0x88 ∷ 0xE1 ∷ []),
  w.dst_sized,
  w.src_sized,
)

length-zero_frame : length zero_frame.wire ≡ wire_size
unfolding zero_frame
length-zero_frame = length-replicate wire_size 0

length_head :
    (p : MmePacket)
    → IsPacket p
    → length (eth_header p ++ p.data_bytes) ≡ eth_header_size + p.data_size
length_head p w =
    omega (arith, length-append (eth_header p) p.data_bytes, length-eth_header p w, w.sized)

copy_message :
    (p : MmePacket) → IsPacket p → copy_out 0 p.data_size p.data_bytes ≡ some p.data_bytes
copy_message p w =
    copy_out_lem 0 p.data_size p.data_bytes (omega (arith, w.sized))
    ∙ ap some (take_all p.data_size p.data_bytes (omega (arith, w.sized)))

copy_head :
    (p : MmePacket)
    → IsPacket p
    → p.data_size ≤ 1500
    → copy_onto (eth_header p ++ p.data_bytes) zero_frame.wire ≡ some (built p 0).wire
unfolding built zero_frame
copy_head p w h =
    copy_onto_lem (eth_header p ++ p.data_bytes) (replicate wire_size 0)
      (omega (arith, length_head p w, length-zero_frame))
    ∙ ap (λ z. some ((eth_header p ++ p.data_bytes) ++ z))
        (drop-replicate (length (eth_header p ++ p.data_bytes)) wire_size 0
          ∙ ap (λ k. replicate k 0) (omega (arith, length_head p w)))

-- A message of at most 1500 bytes becomes one frame, whose size is that of the header and the
-- message, raised to the least size that was asked for; no copy leaves its buffer.
pub build_frames_lem :
    (p : MmePacket) (min_size : ℕ)
    → IsPacket p
    → p.data_size ≤ 1500
    → build_frames p min_size ≡ some (built p min_size ∷ [])
unfolding build_frames
build_frames_lem p min_size w h =
    rw (le→leb p.data_size 1500 h, copy_message p w, copy_head p w h)
      (unfold built zero_frame in refl)

-- A larger message is not sent at all.
pub build_frames_large :
    (p : MmePacket) (min_size : ℕ) → 1500 < p.data_size → build_frames p min_size ≡ some []
unfolding build_frames
build_frames_large p min_size h = ground arith
