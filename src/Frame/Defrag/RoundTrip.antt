-- ===== src/Frame/Defrag/RoundTrip.antt =====
-- hpav_build_frames followed by hpav_defrag_frames: what one station sends in one frame, another
-- gets back.
use tulum_utils.Base.{
  ℕ, ◌+◌, ◌<◌, ◌-◌, ◌≤◌, ◌≡◌, refl, ◌∙◌, arith, ◌∷◌, ◌++◌, [], some, ◌>>=◌, Bytes, byte_at, length,
  length-append, length-replicate, replicate, take-append_ge, take-append, drop-append,
  take-replicate, append_assoc, append-nil, get_or-append, get_or-append_right,
}
use tulum_utils.Frame.Layout.{
  MmePacket, dst_mac_addr, src_mac_addr, wire_size, eth_header_size, mme_frame_size, IsPacket,
}
use tulum_utils.Frame.Header.{num_fragments_of, fragment_number_of}
use tulum_utils.Frame.Build.{build_frames, eth_header, at_least}
use tulum_utils.Frame.Build.Spec.{built, build_frames_lem, length-eth_header}
use tulum_utils.Frame.Defrag.{
  header_size_of, group_frames, defrag_grouped_frames, defrag_frames, add_to_group_list, find_group,
  in_group, add_group,
}
use tulum_utils.Frame.Defrag.Packet.{IsWhole, IsComplete, bytes_from}
use tulum_utils.Frame.Defrag.Fragments.{defrag_complete}
use tulum_utils.Frame.Defrag.Chain.{defrag_groups_lem}

-- The size of the message that a frame of the least size carries.
abbrev pub padded_size : MmePacket → ℕ → ℕ
padded_size p min_size = at_least min_size (eth_header_size + p.data_size) - eth_header_size

-- The packet with zeros behind its message, up to the least size of a frame.
abbrev pub padded : MmePacket → ℕ → MmePacket
padded p min_size = record p {
  data_size = padded_size p min_size;
  data_bytes = p.data_bytes ++ replicate (padded_size p min_size - p.data_size) 0;
}

module _ (p : MmePacket) (min_size : ℕ) (packet : IsPacket p) (small : p.data_size ≤ 1500)
    (least : min_size ≤ 1514) where
  pub length-wire : length (built p min_size).wire ≡ wire_size
  unfolding built
  length-wire = omega (
    arith,
    length-append (eth_header p ++ p.data_bytes) (replicate (mme_frame_size - p.data_size) 0),
    length-append (eth_header p) p.data_bytes,
    length-eth_header p packet,
    length-replicate {A = ℕ} (mme_frame_size - p.data_size) 0,
    packet.sized,
  )

  frame_size_bound :
      ((built p min_size).frame_size ≤ 1514)
      × (eth_header_size + p.data_size ≤ (built p min_size).frame_size)
  unfolding built
  frame_size_bound = ground arith

  byte-built :
      (i : ℕ) → i < p.data_size → byte_at (built p min_size).wire (14 + i) ≡ byte_at p.data_bytes i
  unfolding built
  byte-built i h =
      get_or-append (eth_header p ++ p.data_bytes) (replicate (mme_frame_size - p.data_size) 0)
        (14 + i) 0
        (omega (
          arith,
          length-append (eth_header p) p.data_bytes,
          length-eth_header p packet,
          packet.sized,
        ))
      ∙ get_or-append_right (eth_header p) p.data_bytes (14 + i) i 0
          (omega (arith, length-eth_header p packet))

  message-built : bytes_from eth_header_size (built p min_size) ≡ (padded p min_size).data_bytes
  unfolding built
  message-built =
      let zeros : Bytes = replicate (mme_frame_size - p.data_size) 0 in
      let size = (built p min_size).frame_size - eth_header_size in
      let (most, room) = frame_size_bound in
      rw (
        append_assoc (eth_header p) p.data_bytes zeros,
        drop-append eth_header_size (eth_header p) (p.data_bytes ++ zeros)
            (length-eth_header p packet),
        take-append_ge size p.data_bytes zeros (omega (arith, packet.sized)),
        take-replicate {A = ℕ} (size - length p.data_bytes) (mme_frame_size - p.data_size) 0
            (omega (arith, packet.sized)),
        packet.sized,
      )

  addresses-built :
      (dst_mac_addr (built p min_size) ≡ p.dst) × (src_mac_addr (built p min_size) ≡ p.src)
  unfolding built
  addresses-built =
      let zeros : Bytes = replicate (mme_frame_size - p.data_size) 0 in
      let kind : Bytes = 0x88 ∷ 0xE1 ∷ [] in
      let rest = p.src ++ kind in
      rw
        (
          append_assoc (eth_header p) p.data_bytes zeros,
          append_assoc p.dst rest (p.data_bytes ++ zeros),
        )
        (
          take-append 6 p.dst (rest ++ (p.data_bytes ++ zeros)) packet.dst_sized,
          rw
              (
                drop-append 6 p.dst (rest ++ (p.data_bytes ++ zeros)) packet.dst_sized,
                append_assoc p.src kind (p.data_bytes ++ zeros),
              )
              (take-append 6 p.src (kind ++ (p.data_bytes ++ zeros)) packet.src_sized),
        )

  pub IsWhole-built :
      22 ≤ (built p min_size).frame_size
      → IsWhole (header_size_of (built p min_size)) (built p min_size)
  unfolding header_size_of
  IsWhole-built h = record {
    sized = length-wire;
    long = ground arith;
    fits = omega (arith, frame_size_bound);
  }

  IsComplete-built : byte_at p.data_bytes 3 ≡ 0 → 4 ≤ p.data_size → IsComplete (built p min_size) []
  unfolding num_fragments_of fragment_number_of
  IsComplete-built h k =
      let e = byte-built 3 (omega arith) in
      record { numbered = rw (e, h) refl; counted = rw (e, h) refl }

  padded_size_bound : p.data_size ≤ padded_size p min_size
  padded_size_bound = ground arith

  length-padded : length (padded p min_size).data_bytes ≡ padded_size p min_size
  length-padded = omega (
    arith,
    length-append p.data_bytes (replicate (padded_size p min_size - p.data_size) 0),
    length-replicate {A = ℕ} (padded_size p min_size - p.data_size) 0,
    packet.sized,
    padded_size_bound,
  )

  pub reassembled-built :
      byte_at p.data_bytes 3 ≡ 0
      → 8 ≤ p.data_size
      → defrag_grouped_frames (built p min_size ∷ []) ≡ some (some (padded p min_size))
  reassembled-built h k =
      defrag_complete (built p min_size) [] (IsWhole-built (omega (arith, frame_size_bound)), tt)
        (IsComplete-built h (omega arith))
      ∙ rw (
        append-nil (bytes_from eth_header_size (built p min_size)),
        message-built,
        addresses-built.0,
        addresses-built.1,
        length-padded,
      )

  -- A message of 8 to 1500 bytes whose fragment byte is zero, sent in one frame with a least frame
  -- size of at most 1514, comes back as one packet with the same addresses; the message is the one
  -- sent, with zeros behind it up to the least frame size that was asked for, and exactly the one
  -- sent if that size is 0.
  pub defrag-build_frames :
      byte_at p.data_bytes 3 ≡ 0
      → 8 ≤ p.data_size
      → (build_frames p min_size >>= defrag_frames) ≡ some (padded p min_size ∷ [])
  unfolding defrag_frames group_frames add_to_group_list find_group in_group add_group
  defrag-build_frames h k = rw (build_frames_lem p min_size packet small) (
      defrag_groups_lem ((built p min_size ∷ []) ∷ []) (padded p min_size ∷ [])
        (reassembled-built h k, tt))
