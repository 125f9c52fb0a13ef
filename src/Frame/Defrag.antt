-- ===== src/Frame/Defrag.antt =====
-- Reassembly of messages from frames: hpav_defrag_add_to_group_list, hpav_defrag_grouped_frames and
-- hpav_defrag_frames (hpav_test/libhpav/hpav_mme.c). A chain of nodes is a list; a group list always
-- has a node, whose group is null (here `[]`) until the first frame arrives.
pub mod Key
pub mod Groups
pub mod Packet
pub mod Fragments
pub mod Chain
pub mod RoundTrip
use tulum_utils.Base.{
  ℕ, zero, suc, ◌+◌, ◌-◌, ◌/◌, ◌%◌, Bytes, Bool, true, false, ◌&&◌, leb, ◌==◌, if◌then◌else◌, ◌∷◌,
  ◌++◌, [], List, Option, none, some, ◌>>=◌, bytes_eq, copy_out, length,
}
use tulum_utils.Frame.Layout.{
  EthFrame, MmePacket, dst_mac_addr, src_mac_addr, mmv, mmtype, fmi_nf_fn, fmi_fmsn,
  eth_header_size, mme_header_size, mtk_mme_header_size,
}
use tulum_utils.Frame.Header.{num_fragments_of, fragment_number_of}

abbrev pub Group : Type 0
Group = List EthFrame

abbrev pub GroupList : Type 0
GroupList = List Group

-- The test on the unique identifier of a message.
unfoldable pub same_key : EthFrame → EthFrame → Bool
same_key g f =
    bytes_eq (dst_mac_addr g) (dst_mac_addr f)
    && (bytes_eq (src_mac_addr g) (src_mac_addr f)
        && (mmv g == mmv f && (mmtype g == mmtype f && fmi_fmsn g == fmi_fmsn f)))

-- The first frame of a group stands for it; a null group takes no frame.
unfoldable pub in_group : Group → EthFrame → Bool
in_group [] frame = false
in_group (first ∷ _) frame = same_key first frame

-- The search goes through the whole list, so the last group that fits is the one found.
unfoldable pub find_group : EthFrame → GroupList → ℕ → Option ℕ → Option ℕ
find_group frame [] i found = found
find_group frame (g ∷ gs) i found =
    find_group frame gs (suc i) (if in_group g frame then some i else found)

unfoldable pub append_at : ℕ → EthFrame → GroupList → GroupList
append_at i frame [] = []
append_at zero frame (g ∷ gs) = (g ++ frame ∷ []) ∷ gs
append_at (suc i) frame (g ∷ gs) = g ∷ append_at i frame gs

-- The last node takes the new group if its own is null; `none` is a list with no node.
unfoldable pub add_group : EthFrame → GroupList → Option GroupList
add_group frame [] = none
add_group frame ([] ∷ []) = some ((frame ∷ []) ∷ [])
add_group frame ((first ∷ rest) ∷ []) = some ((first ∷ rest) ∷ (frame ∷ []) ∷ [])
add_group frame (g ∷ (g' ∷ gs)) = do rest ← add_group frame (g' ∷ gs); some (g ∷ rest)

unfoldable pub add_to_group_list : GroupList → EthFrame → Option GroupList
unfolding in_group find_group append_at add_group same_key
add_to_group_list group_list frame = elim (find_group frame group_list 0 none) [
  | none ↦ add_group frame group_list
  | some i ↦ some (append_at i frame group_list)
]

unfoldable pub group_frames : GroupList → List EthFrame → Option GroupList
group_frames group_list [] = some group_list
group_frames group_list (f ∷ fs) = do
  group_list' ← add_to_group_list group_list f
  group_frames group_list' fs

-- The fragment numbers must be `total`, `total + 1`, …; the result is the number of fragments
-- behind the last one, or `none` where the code returns null.
unfoldable pub count_fragments : Group → ℕ → Option ℕ
unfolding fragment_number_of
count_fragments [] total = some total
count_fragments (f ∷ fs) total =
    let rest = count_fragments fs (suc total) in
    if fragment_number_of (fmi_nf_fn f) == total then rest else none

-- (mmtype & 0xE000) == 0xA000
unfoldable pub header_size_of : EthFrame → ℕ
header_size_of f = if mmtype f / 8192 % 8 == 5 then mtk_mme_header_size else mme_header_size

abbrev pub u32_mod : ℕ
u32_mod = 4294967296

-- The sum over the frames of what is behind the headers, as an unsigned int, which wraps.
unfoldable pub total_size : ℕ → Group → ℕ → ℕ
total_size header_size [] size = size
total_size header_size (f ∷ fs) size =
    total_size header_size fs
      ((size + (f.frame_size + u32_mod - eth_header_size - header_size)) % u32_mod)

-- `size_to_copy` is negative for a frame that is shorter than `skipped`: memcpy is then given a
-- size far past any object.
unfoldable pub copy_fragment : ℕ → EthFrame → Option Bytes
copy_fragment skipped f =
    if leb skipped f.frame_size then copy_out skipped (f.frame_size - skipped) f.wire else none

-- The copies, one behind the other, into a buffer of `capacity` bytes.
unfoldable pub copy_fragments : ℕ → ℕ → Bool → Group → Bytes → Option Bytes
copy_fragments header_size capacity is_first [] buffer = some buffer
copy_fragments header_size capacity is_first (f ∷ fs) buffer = do
  part ← copy_fragment (eth_header_size + (if is_first then 0 else header_size)) f
  if leb (length buffer + length part) capacity
      then copy_fragments header_size capacity false fs (buffer ++ part)
      else none

unfoldable pub build_packet : EthFrame → Group → Option MmePacket
build_packet first group =
    let header_size = header_size_of first in
    let size = (total_size header_size group 0 + header_size) % u32_mod in
    copy_fragments header_size size true group [] >>= λ buffer. some (record {
      data_size = size;
      data_bytes = buffer;
      dst = dst_mac_addr first;
      src = src_mac_addr first;
    })

-- The outer `none` is a fault; `some none` is the null that the code returns for a group with a
-- fragment missing or out of order.
unfoldable pub defrag_grouped_frames : Group → Option (Option MmePacket)
defrag_grouped_frames [] = some none
defrag_grouped_frames (first ∷ rest) = elim (count_fragments (first ∷ rest) 0) [
  | none ↦ some none
  | some total ↦
      if num_fragments_of (fmi_nf_fn first) + 1 == total
      then build_packet first (first ∷ rest) >>= (λ p. some (some p))
      else some none
]

-- `new_packets`, and whether `last_packet` is null.
pub record PacketChain : Type 0 where
  pub packets : List MmePacket
  pub last_is_null : Bool

abbrev pub chain_of : Option MmePacket → List MmePacket → PacketChain
chain_of none before = record { packets = before; last_is_null = true }
chain_of (some p) before = record { packets = before ++ p ∷ []; last_is_null = false }

-- `last_packet->next = new_mme_packet` faults if `last_packet` is null.
unfoldable pub link_packet : List MmePacket → Bool → Option MmePacket → Option PacketChain
link_packet [] last_is_null m = some (chain_of m [])
link_packet (p ∷ ps) false m = some (chain_of m (p ∷ ps))
link_packet (p ∷ ps) true m = none

unfoldable pub defrag_groups : GroupList → PacketChain → Option (List MmePacket)
defrag_groups [] chain = some chain.packets
defrag_groups ([] ∷ gs) chain = defrag_groups gs chain
defrag_groups ((first ∷ rest) ∷ gs) chain = do
  m ← defrag_grouped_frames (first ∷ rest)
  chain' ← link_packet chain.packets chain.last_is_null m
  defrag_groups gs chain'

abbrev pub empty_chain : PacketChain
empty_chain = record { packets = []; last_is_null = true }

unfoldable pub defrag_frames : List EthFrame → Option (List MmePacket)
defrag_frames frames = do
  group_list ← group_frames ([] ∷ []) frames
  defrag_groups group_list empty_chain
