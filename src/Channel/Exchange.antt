-- ===== src/Channel/Exchange.antt =====
-- HPAV_MME_SNDRCV_IMPL of hpav_test/libhpav/hpav_mme.h: encode a request, send it, collect answers
-- until the timeout or until enough have come, reassemble and decode them.
pub mod Receive
pub mod Report
pub mod Answers
use tulum_utils.Base.{
  ℕ, zero, suc, Bytes, Bool, true, false, not, ◌&&◌, leb, ltb, ◌==◌, if◌then◌else◌, ◌∷◌, ◌++◌, [],
  List, Option, none, some, String,
}
use tulum_utils.Base.Int.{ℤ, to_int, int_leb}
use tulum_utils.Errors.{ErrorStack, add_error, category_network, module_core}
use tulum_utils.Frame.Layout.{EthFrame, MmePacket, eth_frame_min_size}
use tulum_utils.Frame.Build.{build_frames}
use tulum_utils.Frame.Defrag.{defrag_frames}
use tulum_utils.Channel.Clock.{Timespec, get_elapsed_time_ms}
use tulum_utils.Channel.Callback.{CallbackData, zero_callback_data, deliver}
use tulum_utils.Channel.Pcap.{Pcap, Round, is_minus_one, is_positive, is_zero, minus_one}
use tulum_utils.Channel.Run.{Run, returns, fault, no_fuel, ◌>>=◌, lift}

-- HPAV_OK and HPAV_ERROR_PCAP_ERROR
abbrev pub hpav_ok : ℕ
hpav_ok = 0

abbrev pub hpav_error_pcap_error : ℕ
hpav_error_pcap_error = 1

-- What one kind of exchange brings with it: its encoder, the type of its answers, its decoder, and
-- the test that ends the wait after a call of pcap_dispatch that has handled packets.
pub record Exchange {ℓ} (Cnf : Type ℓ) : Type ℓ where
  pub encode : Bytes → Bytes → Option MmePacket
  pub answer_type : ℕ
  pub enough : CallbackData → Bool
  pub decode : List MmePacket → Option (List Cnf)

pub record Outcome {ℓ} (Cnf : Type ℓ) : Type ℓ where
  pub rc : ℕ
  pub response : List Cnf
  pub sent : List EthFrame
  pub errors : ErrorStack

unfoldable pub add_pcap_error : Pcap → ErrorStack → String → ℤ → ErrorStack
add_pcap_error pcap errors message result =
    add_error errors category_network module_core hpav_error_pcap_error (some message)
      (some (pcap.errbuf_text result))

-- The call that failed in setting up the filter, if one did.
unfoldable pub filter_failure : Pcap → Option String
filter_failure pcap =
    if is_minus_one pcap.compile_rc
    then some "pcap_compile failed"
    else if is_minus_one pcap.setfilter_rc
    then some "pcap_setfilter failed"
    else none

-- The frames handed to pcap_sendpacket, and the result that stopped the loop, if one did.
unfoldable pub send_frames : (EthFrame → ℤ) → List EthFrame → List EthFrame × Option ℤ
send_frames send [] = ([], none)
send_frames send (f ∷ fs) =
    let (sent, failure) = send_frames send fs in
    if is_zero (send f) then (f ∷ sent, failure) else (f ∷ [], some (send f))

-- elapsed <= (int)timeout_ms
unfoldable pub in_time : ℤ → ℕ → Bool
in_time elapsed timeout_ms = int_leb elapsed (to_int timeout_ms)

pub data Received : Type 0 where
  collected : CallbackData → Received
  dispatch_failed : ℤ → Received

-- The do-while loop from call number n on, on fuel. A result of -1 ends it; so does a test that
-- enough has come; else it goes on while there is time and the callback has not said stop.
unfoldable pub receive : (CallbackData → Bool) → Pcap → ℕ → ℕ → ℕ → CallbackData → Run Received
receive enough pcap timeout_ms zero n d = no_fuel
receive enough pcap timeout_ms (suc fuel) n d = do
  let round = pcap.rounds n
  d' ← lift (deliver d round.packets)
  let rest = receive enough pcap timeout_ms fuel (suc n) d'
  if is_minus_one round.result
      then returns (dispatch_failed round.result)
      else if is_positive round.result && enough d'
      then returns (collected d')
      else if in_time (get_elapsed_time_ms pcap.start_time round.end_time) timeout_ms && not d'.stop
      then rest
      else returns (collected d')

-- The data handed to the callback.
abbrev pub callback_data {ℓ} : {Cnf : Type ℓ} → Exchange Cnf → Bytes → Bytes → ℕ → CallbackData
callback_data x mac_addr sta_mac_addr num_fragments = record zero_callback_data {
  src_mac_addr = mac_addr;
  sta_mac_addr = sta_mac_addr;
  mme_type = x.answer_type;
  num_fragments = num_fragments;
}

module _ {ℓ} {Cnf : Type ℓ} (x : Exchange Cnf) (pcap : Pcap) where
  -- What the code does once the wait is over.
  unfoldable pub finish_exchange : List EthFrame → ErrorStack → Received → Run (Outcome Cnf)
  finish_exchange sent errors (dispatch_failed result) = returns (record {
    rc = hpav_error_pcap_error;
    response = [];
    sent = sent;
    errors = add_pcap_error pcap errors "pcap_dispatch failed" result;
  })
  finish_exchange sent errors (collected d) = do
    mme ← lift (defrag_frames d.rx_frames)
    response ← lift (x.decode mme)
    returns (record { rc = hpav_ok; response = response; sent = sent; errors = errors })

  -- The wait; a timeout of 0 asks for none.
  unfoldable pub await_answers :
      ℕ → ℕ → CallbackData → List EthFrame → ErrorStack → Run (Outcome Cnf)
  await_answers fuel timeout_ms d sent errors =
      if timeout_ms == 0
      then returns (record { rc = hpav_ok; response = []; sent = sent; errors = errors })
      else (receive x.enough pcap timeout_ms fuel 0 d >>= finish_exchange sent errors)

  -- What follows the loop over pcap_sendpacket.
  unfoldable pub after_sending :
      ℕ → ℕ → CallbackData → ErrorStack → List EthFrame × Option ℤ → Run (Outcome Cnf)
  after_sending fuel timeout_ms d errors (sent, some result) = returns (record {
    rc = hpav_error_pcap_error;
    response = [];
    sent = sent;
    errors = add_pcap_error pcap errors "pcap_sendpacket failed" result;
  })
  after_sending fuel timeout_ms d errors (sent, none) = await_answers fuel timeout_ms d sent errors

  -- `mac_addr` is the channel's own address.
  unfoldable pub sndrcv : ℕ → Bytes → Bytes → ℕ → ℕ → ErrorStack → Run (Outcome Cnf)
  sndrcv fuel mac_addr sta_mac_addr timeout_ms num_fragments errors = do
    tx_mme_packets ← lift (x.encode sta_mac_addr mac_addr)
    tx_frames ← lift (build_frames tx_mme_packets eth_frame_min_size)
    elim (filter_failure pcap) [
      | some message ↦ returns (record {
        rc = hpav_error_pcap_error;
        response = [];
        sent = [];
        errors = add_pcap_error pcap errors message minus_one;
      })
      | none ↦
          after_sending fuel timeout_ms (callback_data x mac_addr sta_mac_addr num_fragments) errors
            (send_frames pcap.send_rc tx_frames)
    ]
