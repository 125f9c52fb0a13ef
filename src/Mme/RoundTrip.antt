-- ===== src/Mme/RoundTrip.antt =====
-- Messages on their way through encoder, frames, reassembly and decoder.
use tulum_utils.Base.{
  ℕ, ◌+◌, ◌-◌, ◌≤◌, ◌≡◌, refl, ap, ◌∙◌, arith, Bytes, byte_at, ◌∷◌, ◌++◌, [], some, ◌>>=◌,
  copy_out_lem, length, length-append, append_assoc, take, take-append_le, drop-append, replicate,
}
use tulum_utils.Frame.Layout.{MmePacket, IsPacket, mme_header_size, mtk_mme_header_size}
use tulum_utils.Frame.Build.{build_frames}
use tulum_utils.Frame.Defrag.{defrag_frames}
use tulum_utils.Frame.Defrag.RoundTrip.{padded, padded_size, defrag-build_frames}
use tulum_utils.Mme.Encode.{encode_mme, encode_mtk_mme, packet_of, whole_header, mstar_oui}
use tulum_utils.Mme.Decode.{smart_copy, decode_packet, decode_packets, decode_mme, decode_mtk_mme}

-- The fields read from the start of what lies behind the header.
smart_copy_prefix :
    (size n : ℕ) (request zeros : Bytes)
    → size ≤ length request
    → smart_copy size (request ++ zeros) n ≡ some (take size request)
unfolding smart_copy
smart_copy_prefix size n request zeros h =
    copy_out_lem 0 size (request ++ zeros) (omega (arith, length-append request zeros))
    ∙ ap some (take-append_le size request zeros h)

-- A packet is read past any header that it has.
decode_packet_lem :
    (size header_size : ℕ) (header request zeros : Bytes) (p : MmePacket)
    → length header ≡ header_size
    → p.data_bytes ≡ header ++ (request ++ zeros)
    → size ≤ length request
    → decode_packet (smart_copy size) header_size p
      ≡ some (record { fields = take size request; sta_mac_addr = p.src })
unfolding decode_packet
decode_packet_lem size header_size header request zeros p whole e h =
    rw
      (
        e,
        drop-append header_size header (request ++ zeros) whole,
        smart_copy_prefix size _ request zeros h,
      )
      refl

module _ (size header_size : ℕ) (header request : Bytes)
    (header_sized : length header ≡ header_size) (host station : Bytes)
    (host_sized : length host ≡ 6) (station_sized : length station ≡ 6)
    (unfragmented : byte_at (header ++ request) 3 ≡ 0) (few : length header + length request ≤ 1500)
    (some_bytes : 8 ≤ length header + length request) (enough : size ≤ length request) where
  message : MmePacket
  message = packet_of (header ++ request) host station

  message-IsPacket : IsPacket message
  unfolding message
  message-IsPacket = record { sized = refl; dst_sized = host_sized; src_sized = station_sized }

  -- A message that a station sends to the host in one frame is decoded to its first fields.
  decode_sent :
      (build_frames message 60 >>= defrag_frames >>= decode_packets (smart_copy size) header_size)
      ≡ some (record { fields = take size request; sta_mac_addr = station } ∷ [])
  unfolding message decode_packets
  decode_sent =
      let sized = length-append header request in
      rw
        (
          defrag-build_frames message 60 message-IsPacket (omega arith) (omega arith) unfragmented
              (omega arith),
          decode_packet_lem size header_size header request
              (replicate (padded_size message 60 - length (header ++ request)) 0)
              (padded message 60) header_sized
              (append_assoc header request
                (replicate (padded_size message 60 - length (header ++ request)) 0))
              enough,
        )
        refl

-- A station's answer of 3 to 1495 bytes, encoded with the standard header, sent in one frame, put
-- together and decoded, by a receiver whose struct has no more bytes than were sent, comes back as
-- one answer with the address of the station and the first bytes that were sent, as many as the
-- struct has.
pub decode-encode_mme :
    (mme_type size : ℕ) (answer host station : Bytes)
    → length host ≡ 6
    → length station ≡ 6
    → 3 ≤ length answer
    → length answer ≤ 1495
    → size ≤ length answer
    → (build_frames (encode_mme mme_type answer host station) 60
        >>= defrag_frames
        >>= decode_mme (smart_copy size))
      ≡ some (record { fields = take size answer; sta_mac_addr = station } ∷ [])
unfolding encode_mme decode_mme
decode-encode_mme mme_type size answer host station hh hs least most h =
    unfold message in
    decode_sent size mme_header_size (whole_header mme_type) answer refl host station hh hs refl
      (omega arith) (omega arith) h

-- A station's answer of at most 1492 bytes, encoded with the OUI of Mstar, sent in one frame, put
-- together and decoded, by a receiver whose struct has no more bytes than were sent, comes back as
-- one answer with the address of the station and the first bytes that were sent, as many as the
-- struct has.
pub decode-encode_mtk_mme :
    (mme_type size : ℕ) (answer host station : Bytes)
    → length host ≡ 6
    → length station ≡ 6
    → length answer ≤ 1492
    → size ≤ length answer
    → (build_frames (encode_mtk_mme mme_type answer host station) 60
        >>= defrag_frames
        >>= decode_mtk_mme (smart_copy size))
      ≡ some (record { fields = take size answer; sta_mac_addr = station } ∷ [])
unfolding encode_mtk_mme decode_mtk_mme
decode-encode_mtk_mme mme_type size answer host station hh hs most h =
    unfold message in
    decode_sent size mtk_mme_header_size (whole_header mme_type ++ mstar_oui) answer refl host
      station hh hs refl (omega arith) (omega arith) h
