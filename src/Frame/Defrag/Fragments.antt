-- ===== src/Frame/Defrag/Fragments.antt =====
-- Reassembly of one group: hpav_defrag_grouped_frames.
use tulum_utils.Base.{
  ℕ, ◌+◌, ◌%◌, ◌≤◌, ◌<◌, true, false, ◌≡◌, sym, ap, ◌∙◌, arith, Bool-cases, Option-cases, inl, inr,
  ◌∷◌, ◌++◌, [], none, some, Bytes, length, All, ◌==◌, ==_iff,
}
use tulum_utils.Frame.Layout.{EthFrame, fmi_nf_fn, eth_header_size}
use tulum_utils.Frame.Header.{num_fragments_of}
use tulum_utils.Frame.Defrag.{
  Group, count_fragments, total_size, copy_fragment, copy_fragments, build_packet, header_size_of,
  defrag_grouped_frames, u32_mod,
}
use tulum_utils.Frame.Defrag.Packet.{
  IsComplete, IsWhole, count_fragments-numbered, numbered-count_fragments, reassembled,
  build_packet_lem,
}

-- A group in which a fragment is missing, doubled or out of order gives no packet, whatever the
-- frames hold.
pub defrag_incomplete :
    (first : EthFrame) (rest : Group)
    → ¬ IsComplete first rest
    → defrag_grouped_frames (first ∷ rest) ≡ some none
unfolding defrag_grouped_frames
defrag_incomplete first rest broken = elim (Option-cases (count_fragments (first ∷ rest) 0)) [
  | inl null ↦ rw (defrag_grouped_frames, null)
  | inr (total, counted) ↦
      let (numbered, total_is) = count_fragments-numbered (first ∷ rest) 0 total counted in
      elim (Bool-cases (num_fragments_of (fmi_nf_fn first) + 1 == total)) [
        | inl same ↦ absurd (
            broken (record {
              numbered = numbered;
              counted = ground (arith, ==_iff (num_fragments_of (fmi_nf_fn first) + 1) total);
            }))
        | inr other ↦ rw (defrag_grouped_frames, counted, other)
      ]
]

complete_count :
    (first : EthFrame) (rest : Group)
    → IsComplete first rest
    → count_fragments (first ∷ rest) 0 ≡ some (length (first ∷ rest))
complete_count first rest c =
    numbered-count_fragments (first ∷ rest) 0 c.numbered ∙ ap some (omega arith)

complete_number :
    (first : EthFrame) (rest : Group)
    → IsComplete first rest
    → (num_fragments_of (fmi_nf_fn first) + 1 == length (first ∷ rest)) ≡ true
complete_number first rest c =
    (==_iff (num_fragments_of (fmi_nf_fn first) + 1) (length (first ∷ rest))).1 (sym c.counted)

few_fragments :
    (first : EthFrame) (rest : Group) → IsComplete first rest → length (first ∷ rest) ≤ 16
unfolding num_fragments_of
few_fragments first rest c = omega (arith, c.counted)

-- A complete group of frames that hold their headers and lie inside their structs gives the packet
-- with the message: no copy faults, and the size that is computed, with its wrap-around, is the
-- number of bytes copied.
pub defrag_complete :
    (first : EthFrame) (rest : Group)
    → All (IsWhole (header_size_of first)) (first ∷ rest)
    → IsComplete first rest
    → defrag_grouped_frames (first ∷ rest) ≡ some (some (reassembled first rest))
unfolding defrag_grouped_frames
defrag_complete first rest whole c = rw (
  defrag_grouped_frames,
  complete_count first rest c,
  complete_number first rest c,
  build_packet_lem first rest whole (few_fragments first rest c),
)

short_fault :
    (hs capacity : ℕ) (before : Group) (f : EthFrame) (after : Group) (buffer : Bytes)
    → f.frame_size < eth_header_size + hs
    → copy_fragments hs capacity false (before ++ f ∷ after) buffer ≡ none
unfolding copy_fragments copy_fragment
short_fault hs capacity [] f after buffer h = ground arith
short_fault hs capacity (b ∷ before) f after buffer h =
    elim (Option-cases (copy_fragment (eth_header_size + hs) b)) [
      | inl fault ↦ rw fault
      | inr (part, copied) ↦
          rw copied (ground (arith, short_fault hs capacity before f after (buffer ++ part) h))
    ]

build_packet_fault :
    (first : EthFrame) (before : Group) (f : EthFrame) (after : Group)
    → f.frame_size < eth_header_size + header_size_of first
    → build_packet first (first ∷ (before ++ f ∷ after)) ≡ none
unfolding build_packet copy_fragments
build_packet_fault first before f after h =
    elim (Option-cases (copy_fragment eth_header_size first)) [
      | inl fault ↦ rw fault
      | inr (part, copied) ↦ rw copied (
          ground (
            arith,
            short_fault (header_size_of first)
                ((total_size (header_size_of first) (first ∷ (before ++ f ∷ after)) 0
                    + header_size_of first)
                  % u32_mod)
                before f after part h,
          ))
    ]

-- The code does not look at `frame_size` before it subtracts the headers from it: in a complete
-- group, a later frame shorter than its two headers makes a copy leave its buffers.
pub defrag_short :
    (first : EthFrame) (before : Group) (f : EthFrame) (after : Group)
    → IsComplete first (before ++ f ∷ after)
    → f.frame_size < eth_header_size + header_size_of first
    → defrag_grouped_frames (first ∷ (before ++ f ∷ after)) ≡ none
unfolding defrag_grouped_frames
defrag_short first before f after c h = rw (
  defrag_grouped_frames,
  complete_count first (before ++ f ∷ after) c,
  complete_number first (before ++ f ∷ after) c,
  build_packet_fault first before f after h,
)
