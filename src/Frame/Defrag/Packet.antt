-- ===== src/Frame/Defrag/Packet.antt =====
-- The packet that is built of a complete group (hpav_defrag_grouped_frames of
-- hpav_test/libhpav/hpav_mme.c).
use tulum_utils.Base.{
  ℕ, zero, suc, ◌+◌, ◌-◌, ◌*◌, ◌%◌, ◌≤◌, ◌<◌, true, false, ◌≡◌, refl, sym, ap, ◌∙◌, arith, ◌∷◌,
  ◌++◌, [], List, some, append_assoc, append-nil, Bytes, length, length-append, length-slice, slice,
  copy_out_lem, All, map, le→leb,
}
use tulum_utils.Frame.Layout.{
  EthFrame, MmePacket, dst_mac_addr, src_mac_addr, fmi_nf_fn, wire_size, eth_header_size,
}
use tulum_utils.Frame.Header.{num_fragments_of, fragment_number_of}
use tulum_utils.Frame.Defrag.{
  Group, count_fragments, total_size, copy_fragment, copy_fragments, build_packet, header_size_of,
  u32_mod,
}

-- k, k + 1, …, `n` numbers in all.
abbrev pub numbers_from : ℕ → ℕ → List ℕ
numbers_from k zero = []
numbers_from k (suc n) = k ∷ numbers_from (suc k) n

-- The frames carry the fragments 0, 1, … of a message of as many fragments, none missing.
pub record IsComplete (first : EthFrame) (rest : Group) : Type 0 where
  pub numbered :
      map (λ f. fragment_number_of (fmi_nf_fn f)) (first ∷ rest)
      ≡ numbers_from 0 (length (first ∷ rest))
  pub counted : length (first ∷ rest) ≡ num_fragments_of (fmi_nf_fn first) + 1

-- A frame that holds both headers, inside the struct.
pub record IsWhole (header_size : ℕ) (f : EthFrame) : Type 0 where
  pub sized : length f.wire ≡ wire_size
  pub long : eth_header_size + header_size ≤ f.frame_size
  pub fits : f.frame_size ≤ wire_size

-- The bytes of a frame behind the first `skipped`.
abbrev pub bytes_from : ℕ → EthFrame → Bytes
bytes_from skipped f = slice skipped (f.frame_size - skipped) f.wire

-- What the fragments hold behind their headers, one behind the other.
abbrev pub bodies : ℕ → Group → Bytes
bodies header_size [] = []
bodies header_size (f ∷ fs) = bytes_from (eth_header_size + header_size) f ++ bodies header_size fs

-- The message: the first frame with its MME header, the others without.
abbrev pub message : EthFrame → Group → Bytes
message first rest = bytes_from eth_header_size first ++ bodies (header_size_of first) rest

pub count_fragments-numbered :
    (fs : Group) (k n : ℕ)
    → count_fragments fs k ≡ some n
    → (map (λ f. fragment_number_of (fmi_nf_fn f)) fs ≡ numbers_from k (length fs))
      × (n ≡ k + length fs)
unfolding count_fragments
count_fragments-numbered [] k n h = ground arith
count_fragments-numbered (f ∷ fs) k n h = ground (arith, count_fragments-numbered fs (suc k) n)

pub numbered-count_fragments :
    (fs : Group) (k : ℕ)
    → map (λ f. fragment_number_of (fmi_nf_fn f)) fs ≡ numbers_from k (length fs)
    → count_fragments fs k ≡ some (k + length fs)
unfolding count_fragments
numbered-count_fragments [] k h = ap some (omega arith)
numbered-count_fragments (f ∷ fs) k h = ground (arith, numbered-count_fragments fs (suc k))

pub sum_bodies : ℕ → Group → ℕ
sum_bodies hs [] = 0
sum_bodies hs (f ∷ fs) = f.frame_size - (eth_header_size + hs) + sum_bodies hs fs

pub sum_bodies_bound :
    (hs : ℕ) (fs : Group) → All (IsWhole hs) fs → sum_bodies hs fs ≤ 2021 * length fs
unfolding sum_bodies
sum_bodies_bound hs [] w = omega arith
sum_bodies_bound hs (f ∷ fs) w = omega (arith, w.0.fits, sum_bodies_bound hs fs w.1)

-- Without overflow the wrapping sum is the sum.
pub total_size-sum_bodies :
    (hs : ℕ) (fs : Group) (size : ℕ)
    → All (IsWhole hs) fs
    → size + sum_bodies hs fs < u32_mod
    → total_size hs fs size ≡ size + sum_bodies hs fs
unfolding total_size sum_bodies
total_size-sum_bodies hs [] size w h = omega arith
total_size-sum_bodies hs (f ∷ fs) size w h =
    let step : (size + (f.frame_size + u32_mod - eth_header_size - hs)) % u32_mod
        ≡ size + (f.frame_size - (eth_header_size + hs)) =
      omega (arith, w.0.long) in
    rw step (
      total_size-sum_bodies hs fs (size + (f.frame_size - (eth_header_size + hs))) w.1 (omega arith)
      ∙ omega arith)

pub copy_fragment_lem :
    (hs skipped : ℕ) (f : EthFrame)
    → IsWhole hs f
    → skipped ≤ eth_header_size + hs
    → (copy_fragment skipped f ≡ some (bytes_from skipped f))
      × (length (bytes_from skipped f) ≡ f.frame_size - skipped)
unfolding copy_fragment
copy_fragment_lem hs skipped f w h = (
  rw (le→leb skipped f.frame_size (omega (arith, w.long))) (
      copy_out_lem skipped (f.frame_size - skipped) f.wire
        (omega (arith, w.long, w.fits, w.sized))),
  length-slice skipped (f.frame_size - skipped) f.wire (omega (arith, w.long, w.fits, w.sized)),
)

length-bodies :
    (hs : ℕ) (fs : Group) → All (IsWhole hs) fs → length (bodies hs fs) ≡ sum_bodies hs fs
unfolding sum_bodies
length-bodies hs [] w = refl
length-bodies hs (f ∷ fs) w = omega (
  arith,
  length-append (bytes_from (eth_header_size + hs) f) (bodies hs fs),
  length-bodies hs fs w.1,
  (copy_fragment_lem hs (eth_header_size + hs) f w.0 (omega arith)).1,
)

-- The copies of the later fragments stay inside a buffer that has room for them.
copy_fragments-bodies :
    (hs capacity : ℕ) (fs : Group) (buffer : Bytes)
    → All (IsWhole hs) fs
    → length buffer + sum_bodies hs fs ≤ capacity
    → copy_fragments hs capacity false fs buffer ≡ some (buffer ++ bodies hs fs)
unfolding copy_fragments sum_bodies
copy_fragments-bodies hs capacity [] buffer w h = ap some (sym (append-nil buffer))
copy_fragments-bodies hs capacity (f ∷ fs) buffer w h =
    let part = bytes_from (eth_header_size + hs) f in
    let (copied, size) = copy_fragment_lem hs (eth_header_size + hs) f w.0 (omega arith) in
    rw (copied, le→leb (length buffer + length part) capacity (omega arith))
      (copy_fragments-bodies hs capacity fs (buffer ++ part) w.1
          (omega (arith, length-append buffer part, size))
        ∙ ap some (append_assoc buffer part (bodies hs fs)))

pub header_size_bound : (f : EthFrame) → header_size_of f ≤ 8
unfolding header_size_of
header_size_bound f = ground arith

-- The packet that holds a message.
abbrev pub reassembled : EthFrame → Group → MmePacket
reassembled first rest = record {
  data_size = length (message first rest);
  data_bytes = message first rest;
  dst = dst_mac_addr first;
  src = src_mac_addr first;
}

module _ (first : EthFrame) (rest : Group)
    (whole : All (IsWhole (header_size_of first)) (first ∷ rest))
    (few : length (first ∷ rest) ≤ 16) where
  length-message :
      length (message first rest)
      ≡ (sum_bodies (header_size_of first) (first ∷ rest) + header_size_of first)
  unfolding sum_bodies
  length-message = omega (
    arith,
    length-append (bytes_from eth_header_size first) (bodies (header_size_of first) rest),
    length-bodies (header_size_of first) rest whole.1,
    (copy_fragment_lem (header_size_of first) eth_header_size first whole.0 (omega arith)).1,
    whole.0.long,
  )

  size_of_message :
      (total_size (header_size_of first) (first ∷ rest) 0 + header_size_of first) % u32_mod
      ≡ length (message first rest)
  size_of_message =
      let bound = sum_bodies_bound (header_size_of first) (first ∷ rest) whole in
      let total =
        total_size-sum_bodies (header_size_of first) (first ∷ rest) 0 whole
          (omega (arith, bound, few)) in
      omega (arith, length-message, total, bound, few, header_size_bound first)

  copy_message :
      copy_fragments (header_size_of first) (length (message first rest)) true (first ∷ rest) []
      ≡ some (message first rest)
  unfolding copy_fragments
  copy_message =
      let head = bytes_from eth_header_size first in
      let (copied, size) =
        copy_fragment_lem (header_size_of first) eth_header_size first whole.0 (omega arith) in
      let tail_size = length-bodies (header_size_of first) rest whole.1 in
      let all_size = length-append head (bodies (header_size_of first) rest) in
      rw (copied, le→leb (0 + length head) (length (message first rest)) (omega (arith, all_size)))
        (copy_fragments-bodies (header_size_of first) (length (message first rest)) rest head
          whole.1 (omega (arith, all_size, tail_size)))

  pub build_packet_lem : build_packet first (first ∷ rest) ≡ some (reassembled first rest)
  unfolding build_packet
  build_packet_lem = rw (size_of_message, copy_message)
