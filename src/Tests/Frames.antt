-- ===== src/Tests/Frames.antt =====
-- Frames of CM_SET_KEY.CNF, whole and in fragments.
use tulum_utils.Base.{
  ℕ, ◌+◌, ◌≡◌, ◌<◌, refl, arith, ◌∷◌, ◌++◌, [], some, none, ◌>>=◌, Bytes, select, length,
}
use tulum_utils.Frame.Layout.{EthFrame, MmePacket, IsPacket}
use tulum_utils.Frame.Header.{num_fragments_of, fragment_number_of}
use tulum_utils.Frame.Build.{build_frames}
use tulum_utils.Frame.Build.Spec.{built, build_frames_lem}
use tulum_utils.Frame.Defrag.{
  GroupList, group_frames, same_key, defrag_grouped_frames, defrag_groups, defrag_frames,
  empty_chain, header_size_of,
}
use tulum_utils.Frame.Defrag.Groups.{group_of, IsSplit, group_frames_lem}
use tulum_utils.Frame.Defrag.Packet.{IsComplete, IsWhole, reassembled}
use tulum_utils.Frame.Defrag.Fragments.{defrag_incomplete, defrag_complete, defrag_short}
use tulum_utils.Frame.Defrag.Chain.{defrag_groups_fault}
use tulum_utils.Frame.Defrag.RoundTrip.{padded, defrag-build_frames, length-wire, reassembled-built}

abbrev pub station : Bytes
station = 0x00 ∷ 0x13 ∷ 0xD7 ∷ 0x00 ∷ 0x00 ∷ 0x01 ∷ []

abbrev pub host : Bytes
host = 0x02 ∷ 0x00 ∷ 0x00 ∷ 0x00 ∷ 0x00 ∷ 0x07 ∷ []

-- A message with the fragment byte `nf_fn` and the sequence number `sn`.
abbrev pub fragment : ℕ → ℕ → Bytes → MmePacket
fragment nf_fn sn body = record {
  data_size = length body + 5;
  data_bytes = 0x01 ∷ 0x09 ∷ 0x60 ∷ nf_fn ∷ sn ∷ body;
  dst = host;
  src = station;
}

fragment-IsPacket : (nf_fn sn : ℕ) (body : Bytes) → IsPacket (fragment nf_fn sn body)
fragment-IsPacket nf_fn sn body = record { sized = omega arith; dst_sized = refl; src_sized = refl }

abbrev pub body : Bytes
body = 10 ∷ 20 ∷ 30 ∷ 40 ∷ []

abbrev pub single : MmePacket
single = fragment 0 0 body

-- The first and the second of two fragments, and one that waits for a second.
abbrev frame_0 : EthFrame
frame_0 = built (fragment 0x01 7 body) 0

abbrev frame_1 : EthFrame
frame_1 = built (fragment 0x11 7 body) 0

abbrev lone : EthFrame
lone = built (fragment 0x01 8 body) 0

-- A frame cut off behind the fragment byte.
abbrev cut : EthFrame
cut =
    built
      (record {
        data_size = 4;
        data_bytes = 0x01 ∷ 0x09 ∷ 0x60 ∷ 0x11 ∷ [];
        dst = host;
        src = station;
      })
      0

build_frames_example : build_frames single 60 ≡ some (built single 60 ∷ [])
build_frames_example = build_frames_lem single 60 (fragment-IsPacket 0 0 body) (omega arith)

round_trip_example : (build_frames single 0 >>= defrag_frames) ≡ some (padded single 0 ∷ [])
round_trip_example =
    defrag-build_frames single 0 (fragment-IsPacket 0 0 body) (omega arith) (omega arith) refl
      (omega arith)

group_frames_example :
    (gs : GroupList) × (group_frames ([] ∷ []) (frame_0 ∷ lone ∷ frame_1 ∷ []) ≡ some gs)
    × IsSplit gs
    × ((x : EthFrame) → group_of x gs ≡ select (same_key x) (frame_0 ∷ lone ∷ frame_1 ∷ []))
group_frames_example = group_frames_lem frame_0 (lone ∷ frame_1 ∷ [])

two_fragments : IsComplete frame_0 (frame_1 ∷ [])
unfolding built num_fragments_of fragment_number_of
two_fragments = record { numbered = refl; counted = refl }

lone-incomplete : ¬ IsComplete lone []
unfolding built num_fragments_of
lone-incomplete c = absurd (omega (arith, c.counted))

defrag_incomplete_example : defrag_grouped_frames (lone ∷ []) ≡ some none
defrag_incomplete_example = defrag_incomplete lone [] lone-incomplete

header-frame_0 : header_size_of frame_0 ≡ 5
unfolding built header_size_of
header-frame_0 = refl

IsWhole-frame : (nf_fn : ℕ) → IsWhole 5 (built (fragment nf_fn 7 body) 0)
IsWhole-frame nf_fn = record {
  sized =
      length-wire (fragment nf_fn 7 body) 0 (fragment-IsPacket nf_fn 7 body) (omega arith)
        (omega arith);
  long = unfold built in omega arith;
  fits = unfold built in omega arith;
}

defrag_complete_example :
    defrag_grouped_frames (frame_0 ∷ frame_1 ∷ [])
    ≡ some (some (reassembled frame_0 (frame_1 ∷ [])))
defrag_complete_example =
    defrag_complete frame_0 (frame_1 ∷ [])
      (rw header-frame_0 (IsWhole-frame 0x01, (IsWhole-frame 0x11, tt))) two_fragments

-- The message of the two fragments is the header and the two bodies.
two_fragments_message :
    (reassembled frame_0 (frame_1 ∷ [])).data_bytes ≡ 0x01 ∷ 0x09 ∷ 0x60 ∷ 0x01 ∷ 7 ∷ (body ++ body)
unfolding built header_size_of
two_fragments_message = refl

cut-IsComplete : IsComplete frame_0 (cut ∷ [])
unfolding built num_fragments_of fragment_number_of
cut-IsComplete = record { numbered = refl; counted = refl }

cut_size : cut.frame_size < 19
unfolding built
cut_size = omega arith

defrag_short_example : defrag_grouped_frames (frame_0 ∷ cut ∷ []) ≡ none
defrag_short_example = defrag_short frame_0 [] cut [] cut-IsComplete (rw header-frame_0 cut_size)

single_results : defrag_grouped_frames (built single 0 ∷ []) ≡ some (some (padded single 0))
single_results =
    reassembled-built single 0 (fragment-IsPacket 0 0 body) (omega arith) (omega arith) refl
      (omega arith)

defrag_groups_fault_example :
    defrag_groups ((built single 0 ∷ []) ∷ (lone ∷ []) ∷ (lone ∷ []) ∷ []) empty_chain ≡ none
defrag_groups_fault_example =
    defrag_groups_fault ((built single 0 ∷ []) ∷ (lone ∷ []) ∷ (lone ∷ []) ∷ []) (padded single 0)
      [] none [] (single_results, (defrag_incomplete_example, (defrag_incomplete_example, tt)))
