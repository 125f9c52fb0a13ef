-- ===== src/Channel/Callback.antt =====
-- rx_callback of hpav_test/libhpav/hpav_mme.h, which libpcap calls for each captured packet.
pub mod Chain
use tulum_utils.Base.{
  ℕ, ◌+◌, ◌%◌, Bytes, Bool, true, false, not, ◌&&◌, ◌||◌, leb, ◌==◌, if◌then◌else◌, ◌∷◌, ◌++◌, [],
  List, Option, none, some, ◌>>=◌, bytes_eq, copy_out, copy_onto, byte_at, le16_at, length,
}
use tulum_utils.Frame.Layout.{EthFrame, Timeval, zero_frame}

-- A packet as pcap hands it over: `caplen` is the number of its bytes.
pub record Captured : Type 0 where
  pub bytes : Bytes
  pub ts : Timeval

abbrev pub caplen : Captured → ℕ
caplen packet = length packet.bytes

-- `rx_frames` is the chain, and `latest_frame`, if not null, the last frame of it.
pub record CallbackData : Type 0 where
  pub src_mac_addr : Bytes
  pub sta_mac_addr : Bytes
  pub mme_type : ℕ
  pub rx_frames : List EthFrame
  pub num_fragments : ℕ
  pub stop : Bool
  pub num_fragments_received : ℕ
  pub latest_is_null : Bool
  pub fn : ℕ

abbrev pub broadcast_mac_addr : Bytes
broadcast_mac_addr = 0xFF ∷ 0xFF ∷ 0xFF ∷ 0xFF ∷ 0xFF ∷ 0xFF ∷ []

abbrev pub zero_mac_addr : Bytes
zero_mac_addr = 0 ∷ 0 ∷ 0 ∷ 0 ∷ 0 ∷ 0 ∷ []

-- The data that memset has cleared.
abbrev pub zero_callback_data : CallbackData
zero_callback_data = record {
  src_mac_addr = zero_mac_addr;
  sta_mac_addr = zero_mac_addr;
  mme_type = 0;
  rx_frames = [];
  num_fragments = 0;
  stop = false;
  num_fragments_received = 0;
  latest_is_null = true;
  fn = 0;
}

-- The packet is for this host, and of the type waited for; a type of 0 takes every packet. The
-- type is read only if the address fits; a read past the packet faults.
unfoldable pub accepts : CallbackData → Captured → Option Bool
accepts user_data packet = do
  dst ← copy_out 0 6 packet.bytes
  if bytes_eq dst user_data.src_mac_addr
      then (do
        mmtype ← copy_out 15 2 packet.bytes
        some (le16_at mmtype 0 == user_data.mme_type || user_data.mme_type == 0))
      else some false

-- The cleared frame with the packet copied onto it; a packet that does not fit faults.
unfoldable pub received_frame : Captured → Option EthFrame
received_frame packet = do
  wire ← copy_onto packet.bytes zero_frame.wire
  some (record { wire = wire; frame_size = caplen packet; ts = packet.ts })

-- The low four bits of the fragment byte of the packet.
unfoldable pub read_fn : Captured → ℕ → Option ℕ
read_fn packet fn =
    if caplen packet == 0
    then some fn
    else (do nf_fn ← copy_out 17 1 packet.bytes; some (byte_at nf_fn 0 % 16))

abbrev pub next_count : CallbackData → ℕ
next_count user_data = (user_data.num_fragments_received + 1) % 4294967296

unfoldable pub add_frame : CallbackData → EthFrame → ℕ → CallbackData
add_frame user_data new_frame fn = record user_data {
  rx_frames =
      if not user_data.latest_is_null && not (user_data.mme_type == 0)
      then user_data.rx_frames ++ new_frame ∷ []
      else new_frame ∷ [];
  latest_is_null = false;
  fn = fn;
  num_fragments_received = next_count user_data;
  stop =
      (not (bytes_eq user_data.sta_mac_addr broadcast_mac_addr)
        && (not (user_data.num_fragments == 0)
            && leb user_data.num_fragments (next_count user_data)))
      || user_data.stop;
}

unfoldable pub rx_callback : CallbackData → Captured → Option CallbackData
rx_callback user_data packet = do
  wanted ← accepts user_data packet
  if wanted
      then (do
        new_frame ← received_frame packet
        fn ← read_fn packet user_data.fn
        some (add_frame user_data new_frame fn))
      else some user_data

-- pcap_dispatch calls it for each packet in its buffer.
unfoldable pub deliver : CallbackData → List Captured → Option CallbackData
unfolding rx_callback
deliver user_data [] = some user_data
deliver user_data (packet ∷ packets) = do
  user_data' ← rx_callback user_data packet
  deliver user_data' packets
