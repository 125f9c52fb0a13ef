-- ===== src/Channel/Kinds.antt =====
-- The exchanges that hpav_test/libhpav_mtk/hpav_mtk_mme.c writes out by hand. They differ from
-- HPAV_MME_SNDRCV_IMPL in the test that ends the wait early. Encoders and decoders are arguments.
pub mod Outcomes
use tulum_utils.Base.{
  ℕ, ◌+◌, ◌%◌, Bytes, Bool, false, not, ◌&&◌, ltb, ◌==◌, List, [], Option, none, some, String,
}
use tulum_utils.Errors.{ErrorStack}
use tulum_utils.Frame.Layout.{MmePacket}
use tulum_utils.Channel.Callback.{CallbackData, zero_callback_data}
use tulum_utils.Channel.Callback.Chain.{is_empty}
use tulum_utils.Channel.Pcap.{Pcap, minus_one}
use tulum_utils.Channel.Run.{Run, returns}
use tulum_utils.Channel.Exchange.{
  Exchange, Outcome, hpav_error_pcap_error, add_pcap_error, filter_failure, await_answers, sndrcv,
}

-- Nothing but the time and the number of fragments asked for ends the wait.
abbrev pub never : CallbackData → Bool
never d = false

-- rx_frames != NULL && num_fragments_received - 1 == fn, on unsigned ints.
unfoldable pub all_fragments : CallbackData → Bool
all_fragments d =
    not (is_empty d.rx_frames) && (d.num_fragments_received + 4294967295) % 4294967296 == d.fn

-- scan == 0 && num_fragments_received > 0
unfoldable pub first_answer : ℕ → CallbackData → Bool
first_answer scan d = scan == 0 && ltb 0 d.num_fragments_received

-- The exchange for one type of answers and one test.
abbrev pub sndrcv_with {ℓ} :
    {Cnf : Type ℓ}
    → (Bytes → Bytes → Option MmePacket)
    → (List MmePacket → Option (List Cnf))
    → ℕ
    → (CallbackData → Bool)
    → Exchange Cnf
sndrcv_with encode decode answer_type enough = record {
  encode = encode;
  answer_type = answer_type;
  enough = enough;
  decode = decode;
}

module _ {ℓ} {Cnf : Type ℓ} (encode : Bytes → Bytes → Option MmePacket)
    (decode : List MmePacket → Option (List Cnf)) (pcap : Pcap) (fuel : ℕ)
    (mac_addr sta_mac_addr : Bytes) (timeout_ms num_fragments : ℕ) (errors : ErrorStack) where
  unfoldable pub vs_reset_ind_sndrcv : Run (Outcome Cnf)
  vs_reset_ind_sndrcv =
      sndrcv (sndrcv_with encode decode 0xA00B never) pcap fuel mac_addr sta_mac_addr timeout_ms
        num_fragments errors

  unfoldable pub vs_get_pwm_stats_sndrcv : Run (Outcome Cnf)
  vs_get_pwm_stats_sndrcv =
      sndrcv (sndrcv_with encode decode 0xA10D all_fragments) pcap fuel mac_addr sta_mac_addr
        timeout_ms num_fragments errors

  unfoldable pub vs_get_pwm_conf_sndrcv : Run (Outcome Cnf)
  vs_get_pwm_conf_sndrcv =
      sndrcv (sndrcv_with encode decode 0xA111 all_fragments) pcap fuel mac_addr sta_mac_addr
        timeout_ms num_fragments errors

  unfoldable pub vs_set_pwm_conf_sndrcv : Run (Outcome Cnf)
  vs_set_pwm_conf_sndrcv =
      sndrcv (sndrcv_with encode decode 0xA115 all_fragments) pcap fuel mac_addr sta_mac_addr
        timeout_ms num_fragments errors

  -- The number of fragments is not handed to the callback here.
  unfoldable pub vs_set_tx_cali_sndrcv : Run (Outcome Cnf)
  vs_set_tx_cali_sndrcv =
      sndrcv (sndrcv_with encode decode 0xA129 all_fragments) pcap fuel mac_addr sta_mac_addr
        timeout_ms 0 errors

  unfoldable pub vs_file_access_sndrcv : ℕ → Run (Outcome Cnf)
  vs_file_access_sndrcv scan =
      sndrcv (sndrcv_with encode decode 0xA4FD (first_answer scan)) pcap fuel mac_addr sta_mac_addr
        timeout_ms num_fragments errors

  -- What follows the set-up of the filter, given the call that failed, if one did.
  unfoldable pub ind_rcv_after : Option String → Run (Outcome Cnf)
  ind_rcv_after (some message) = returns (record {
    rc = hpav_error_pcap_error;
    response = [];
    sent = [];
    errors = add_pcap_error pcap errors message minus_one;
  })
  ind_rcv_after none =
      await_answers (sndrcv_with encode decode 0xA12A all_fragments) pcap fuel timeout_ms
        (record zero_callback_data { src_mac_addr = mac_addr; mme_type = 0xA12A }) [] errors

  -- hpav_mtk_vs_set_tx_cali_ind_rcv sends nothing, and waits for an indication; neither a station
  -- nor a number of fragments is handed to the callback.
  unfoldable pub vs_set_tx_cali_ind_rcv : Run (Outcome Cnf)
  vs_set_tx_cali_ind_rcv = ind_rcv_after (filter_failure pcap)
