-- ===== src/Channel/Raw.antt =====
-- Messages sent as the caller made them: hpav_send_raw_mme (hpav_test/libhpav/hpav_mme.c),
-- hpav_send_raw_mtk_mme and hpav_setup_mtk_mme_header (hpav_test/libhpav_mtk/hpav_mtk_mme.c).
use tulum_utils.Base.{
  ℕ, ◌+◌, ◌%◌, false, ltb, ◌≤◌, ◌<◌, ◌≡◌, refl, arith, Bool-cases, inl, inr, if◌then◌else◌, length,
  length-take, take, copy_out_lem, Bytes, ◌∷◌, ◌++◌, [], List, Option, none, some, ◌>>=◌, copy_out,
}
use tulum_utils.Base.Int.{ℤ}
use tulum_utils.Errors.{ErrorStack}
use tulum_utils.Frame.Layout.{EthFrame, eth_frame_min_size}
use tulum_utils.Frame.Header.{MmeHeader, header_bytes, setup_mme_header}
use tulum_utils.Frame.Build.{build_frames}
use tulum_utils.Frame.Build.Spec.{built, build_frames_lem, build_frames_large}
use tulum_utils.Channel.Pcap.{Pcap, is_zero, minus_one}
use tulum_utils.Channel.Exchange.{hpav_ok, hpav_error_pcap_error, add_pcap_error, send_frames}
use tulum_utils.Mme.Encode.{packet_of, mstar_oui}

pub record RawSent : Type 0 where
  pub rc : ℕ
  pub sent : List EthFrame
  pub errors : ErrorStack

unfoldable pub raw_result : Pcap → ErrorStack → List EthFrame × Option ℤ → RawSent
raw_result pcap errors (sent, some result) = record {
  rc = hpav_error_pcap_error;
  sent = sent;
  errors = add_pcap_error pcap errors "pcap_sendpacket failed" result;
}
raw_result pcap errors (sent, none) = record { rc = hpav_ok; sent = sent; errors = errors }

-- The message behind its header, in a buffer of mme_size bytes, which is an unsigned int: where it
-- wraps, the copies do not fit the buffer. The other fault is a read past the caller's data.
unfoldable pub raw_message : Bytes → ℕ → Bytes → ℕ → Option Bytes
raw_message header header_size mme_data mme_data_size = copy_out 0 mme_data_size mme_data >>= λ mme.
    if ltb ((header_size + mme_data_size) % 4294967296) (header_size + mme_data_size)
    then none
    else some (header ++ mme)

unfoldable pub send_raw_mme :
    Pcap → Bytes → Bytes → MmeHeader → Bytes → ℕ → ErrorStack → Option RawSent
send_raw_mme pcap mac_addr sta_mac_addr header mme_data mme_data_size errors = do
  mme ← raw_message (header_bytes header) 5 mme_data mme_data_size
  tx_frames ← build_frames (packet_of mme sta_mac_addr mac_addr) eth_frame_min_size
  some (raw_result pcap errors (send_frames pcap.send_rc tx_frames))

pub record MtkMmeHeader : Type 0 where
  pub common : MmeHeader
  pub oui : Bytes

unfoldable pub setup_mtk_mme_header : ℕ → ℕ → ℕ → ℕ → MtkMmeHeader
setup_mtk_mme_header mme_type num_fragments fragment_num fragment_sequence_number = record {
  common = setup_mme_header mme_type num_fragments fragment_num fragment_sequence_number;
  oui = mstar_oui;
}

-- The loop that goes on whatever the calls return, and keeps the last result.
pub send_all : (EthFrame → ℤ) → List EthFrame → ℤ → ℤ
send_all send [] result = result
send_all send (f ∷ fs) result = send_all send fs (send f)

-- The frames handed to pcap_sendpacket, and what is returned.
unfoldable pub send_raw_mtk_mme :
    Pcap → Bytes → Bytes → MtkMmeHeader → Bytes → ℕ → Option (List EthFrame × ℤ)
send_raw_mtk_mme pcap mac_addr sta_mac_addr header mme_data mme_data_size = do
  mme ← raw_message (header_bytes header.common ++ header.oui) 8 mme_data mme_data_size
  tx_frames ← build_frames (packet_of mme sta_mac_addr mac_addr) eth_frame_min_size
  some (tx_frames, send_all pcap.send_rc tx_frames minus_one)

raw_message_lem :
    (header : Bytes) (header_size : ℕ) (bytes : Bytes) (size : ℕ)
    → size ≤ length bytes
    → header_size + size < 4294967296
    → raw_message header header_size bytes size ≡ some (header ++ take size bytes)
unfolding raw_message
raw_message_lem header header_size bytes size holds fits =
    let no_wrap : ltb ((header_size + size) % 4294967296) (header_size + size) ≡ false =
      ground arith in
    rw (copy_out_lem 0 size bytes (omega arith), no_wrap) refl

-- A raw message of at most 1495 bytes, from a buffer that holds them: one frame is handed to
-- pcap_sendpacket, built from the header and the bytes; the code is 0 exactly if that call returns
-- 0, and else one error of libpcap is on top of the caller's error stack.
pub send_raw_mme_lem :
    (pcap : Pcap) (mac_addr sta_mac_addr : Bytes) (header : MmeHeader) (bytes : Bytes) (size : ℕ)
    (errors : ErrorStack)
    → length mac_addr ≡ 6
    → length sta_mac_addr ≡ 6
    → size ≤ length bytes
    → size ≤ 1495
    → send_raw_mme pcap mac_addr sta_mac_addr header bytes size errors
      ≡ some (
          let frame =
            built (packet_of (header_bytes header ++ take size bytes) sta_mac_addr mac_addr) 60 in
          if is_zero (pcap.send_rc frame)
          then record { rc = 0; sent = frame ∷ []; errors = errors }
          else record {
            rc = 1;
            sent = frame ∷ [];
            errors = add_pcap_error pcap errors "pcap_sendpacket failed" (pcap.send_rc frame);
          })
unfolding send_raw_mme send_frames raw_result
send_raw_mme_lem pcap mac_addr sta_mac_addr header bytes size errors hm hs holds small =
    let mme = take size bytes in
    let p = packet_of (header_bytes header ++ mme) sta_mac_addr mac_addr in
    let sized : length mme ≡ size = omega (arith, length-take size bytes) in
    let frame = built p 60 in
    rw
      (
        raw_message_lem (header_bytes header) 5 bytes size holds (omega arith),
        build_frames_lem p 60 (record { sized = refl; dst_sized = hs; src_sized = hm })
            (omega arith),
      )
      (elim (Bool-cases (is_zero (pcap.send_rc frame))) [
        | inl ok ↦ rw ok refl
        | inr bad ↦ rw bad refl
      ])

-- A raw message of more than 1495 bytes, whose size with its header is less than 2^32, is not sent, and
-- the code is 0 all the same.
pub send_raw_mme_large :
    (pcap : Pcap) (mac_addr sta_mac_addr : Bytes) (header : MmeHeader) (bytes : Bytes) (size : ℕ)
    (errors : ErrorStack)
    → size ≤ length bytes
    → 1495 < size
    → size + 5 < 4294967296
    → send_raw_mme pcap mac_addr sta_mac_addr header bytes size errors
      ≡ some (record { rc = 0; sent = []; errors = errors })
unfolding send_raw_mme send_frames raw_result
send_raw_mme_large pcap mac_addr sta_mac_addr header bytes size errors holds large fits =
    let mme = take size bytes in
    let p = packet_of (header_bytes header ++ mme) sta_mac_addr mac_addr in
    let sized : length mme ≡ size = omega (arith, length-take size bytes) in
    rw
      (
        raw_message_lem (header_bytes header) 5 bytes size holds (omega arith),
        build_frames_large p 60 (omega arith),
      )
      refl
