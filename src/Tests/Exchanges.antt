-- ===== src/Tests/Exchanges.antt =====
-- An exchange with a station that answers in the first call of pcap_dispatch.
use tulum_utils.Base.{
  ℕ, zero, suc, ◌+◌, ◌-◌, ◌*◌, true, length-replicate, ◌≡◌, ◌<◌, ◌≢◌, refl, arith, Bytes, ◌∷◌, ◌++◌,
  [], some, All, replicate, copy_out, copy_onto, bytes_eq, length, take,
}
use tulum_utils.Base.Int.{pos, to_int}
use tulum_utils.Frame.Layout.{zero_frame}
use tulum_utils.Frame.Build.{build_frames}
use tulum_utils.Frame.Build.Spec.{built}
use tulum_utils.Channel.Callback.{
  Captured, CallbackData, deliver, rx_callback, accepts, received_frame, read_fn, add_frame,
  zero_callback_data, zero_mac_addr,
}
use tulum_utils.Channel.Callback.Chain.{IsCapture, IsCollected, deliver-IsCollected}
use tulum_utils.Channel.Clock.{Timespec, get_elapsed_time_ms_bounds}
use tulum_utils.Channel.Pcap.{Pcap, Round}
use tulum_utils.Channel.Sniff.{sniff_loop, sniff_ends}
use tulum_utils.Channel.Raw.{send_raw_mme, send_raw_mme_large}
use tulum_utils.Channel.Kinds.{
  never, all_fragments, first_answer, vs_reset_ind_sndrcv, vs_get_pwm_stats_sndrcv,
  vs_get_pwm_conf_sndrcv, vs_set_pwm_conf_sndrcv, vs_set_tx_cali_sndrcv, vs_file_access_sndrcv,
  vs_set_tx_cali_ind_rcv,
}
use tulum_utils.Channel.Kinds.Outcomes.{Awaits, kinds-IsAwaited}
use tulum_utils.Channel.Run.{returns, no_fuel}
use tulum_utils.Channel.Exchange.{
  Exchange, Outcome, callback_data, receive, sndrcv, filter_failure, after_sending, send_frames,
  await_answers, finish_exchange, in_time,
}
use tulum_utils.Channel.Clock.{get_elapsed_time_ms, elapsed_ms}
use tulum_utils.Frame.Defrag.{
  defrag_frames, group_frames, add_to_group_list, find_group, in_group, append_at, add_group,
  same_key, defrag_groups, link_packet, defrag_grouped_frames, build_packet, count_fragments,
  total_size, copy_fragments, copy_fragment, header_size_of,
}
use tulum_utils.Frame.Header.{setup_mme_header, num_fragments_of, fragment_number_of}
use tulum_utils.Channel.Exchange.Receive.{packets_from, receive_ends}
use tulum_utils.Channel.Exchange.Report.{IsReported, sndrcv-IsReported}
use tulum_utils.Channel.Exchange.Answers.{IsAwaited, sndrcv-IsAnswer}
use tulum_utils.Mme.Encode.{encode_mme}
use tulum_utils.Mme.Decode.{Answer, smart_copy, decode_mme, decode_packets, decode_packet}
use tulum_utils.Tests.Frames.{host, station, single}

-- The 60 bytes of the frame of an answer.
abbrev pub answer : Captured
answer = record { bytes = take 60 (built single 60).wire; ts = record { tv_sec = 0; tv_usec = 0 } }

abbrev pub at_second : ℕ → Timespec
at_second s = record { tv_sec = s; tv_nsec = 0 }

-- The first call brings the answer, and later ones nothing; a second goes by with each.
abbrev rounds : ℕ → Round
rounds zero = record { result = pos 1; packets = answer ∷ []; end_time = at_second 1 }
rounds (suc n) = record { result = pos 0; packets = []; end_time = at_second (suc (suc n)) }

abbrev pub pcap : Pcap
pcap = record {
  compile_rc = pos 0;
  setfilter_rc = pos 0;
  send_rc = λ f. pos 0;
  start_time = at_second 0;
  rounds = rounds;
  errbuf_text = λ r. "no error";
}

answers-IsCapture : (n : ℕ) → All IsCapture (rounds n).packets
unfolding built replicate
answers-IsCapture zero = ((omega arith, omega arith), tt)
answers-IsCapture (suc n) = tt

no_more : (n k : ℕ) → packets_from pcap (suc n) k ≡ []
no_more n zero = refl
no_more n (suc k) = no_more (suc n) k

few : (k : ℕ) → length (packets_from pcap 0 k) < 4294967296
few zero = omega arith
few (suc k) = rw (no_more 0 k) (omega arith)

-- A CM_SET_KEY exchange cut short: requests of four bytes, answers of three.
abbrev exchange : Exchange (Answer Bytes)
exchange = record {
  encode = λ sta src. some (encode_mme 0x6008 (1 ∷ 2 ∷ 3 ∷ 4 ∷ []) sta src);
  answer_type = 0x6009;
  enough = never;
  decode = decode_mme (smart_copy 3);
}

abbrev outcome : Outcome (Answer Bytes)
outcome = record {
  rc = 0;
  response = record { fields = 10 ∷ 20 ∷ 30 ∷ []; sta_mac_addr = station } ∷ [];
  sent = built (encode_mme 0x6008 (1 ∷ 2 ∷ 3 ∷ 4 ∷ []) station host) 60 ∷ [];
  errors = [];
}

run : sndrcv exchange pcap 1 host station 500 1 [] ≡ returns outcome
unfolding sndrcv filter_failure after_sending send_frames await_answers finish_exchange receive
    deliver rx_callback accepts received_frame read_fn add_frame get_elapsed_time_ms elapsed_ms
    to_int in_time build_frames built zero_frame replicate encode_mme decode_mme decode_packets
    decode_packet smart_copy copy_out copy_onto bytes_eq defrag_frames group_frames
    add_to_group_list find_group in_group append_at add_group same_key defrag_groups link_packet
    defrag_grouped_frames build_packet count_fragments total_size copy_fragments copy_fragment
    header_size_of num_fragments_of fragment_number_of
run = refl

sndrcv-IsAnswer_example : IsAwaited exchange pcap 500 host station 1 outcome.response
sndrcv-IsAnswer_example =
    sndrcv-IsAnswer exchange pcap 500 host station 1 (omega arith) (omega arith) answers-IsCapture
      few 1 [] outcome run refl

sndrcv-IsReported_example :
    IsReported exchange pcap [] (sndrcv exchange pcap 1 host station 500 1 [])
sndrcv-IsReported_example = sndrcv-IsReported exchange pcap 1 host station 500 1 []

receive_ends_example : receive never pcap 500 3 0 zero_callback_data ≢ no_fuel
unfolding get_elapsed_time_ms elapsed_ms to_int in_time
receive_ends_example =
    receive_ends never pcap 500 3 0 1 zero_callback_data (omega arith) (omega arith) refl

-- A frame of the answer, for the chain of the callback.
deliver_example :
    (d' : CallbackData) × (deliver (callback_data exchange host station 1) (answer ∷ answer ∷ [])
      ≡ some d')
    × IsCollected host station 0x6009 1 ([] ++ answer ∷ answer ∷ []) d'
unfolding built replicate
deliver_example =
    deliver-IsCollected host station 0x6009 1 (omega arith) [] (answer ∷ answer ∷ [])
      (callback_data exchange host station 1)
      (record {
        host_is = refl;
        station_is = refl;
        kind_is = refl;
        number_is = refl;
        frames = refl;
        counted = refl;
        latest = refl;
        stopped = (unfold bytes_eq in refl);
      })
      ((omega arith, omega arith), ((omega arith, omega arith), tt)) (omega arith)

sniff_ends_example :
    sniff_loop {S = ℕ} (λ n frames. (n + 1, true)) pcap 3 0 zero_callback_data 0 [] ≢ no_fuel
sniff_ends_example =
    sniff_ends {S = ℕ} (λ n frames. (n + 1, true)) pcap (λ n frames. refl) 3 0 0 zero_callback_data
      0 [] (omega arith) (omega arith) refl

get_elapsed_time_ms_example :
    (ms : ℕ) × (get_elapsed_time_ms
        (record { tv_sec = 0; tv_nsec = 999999999 })
        (record { tv_sec = 1; tv_nsec = 999999999 })
      ≡ pos ms)
    × (1999999999 - 999999999 < (ms + 1) * 1000000)
    × (ms * 1000000 < 1999999999 - 999999999 + 1000000)
get_elapsed_time_ms_example =
    get_elapsed_time_ms_bounds (record { tv_sec = 0; tv_nsec = 999999999 })
      (record { tv_sec = 1; tv_nsec = 999999999 }) (omega arith) (omega arith) (omega arith)
      (omega arith)

send_raw_mme_large_example :
    send_raw_mme pcap host station (setup_mme_header 0x6008 0 0 0) (replicate 1600 0) 1500 []
    ≡ some (record { rc = 0; sent = []; errors = [] })
send_raw_mme_large_example =
    send_raw_mme_large pcap host station (setup_mme_header 0x6008 0 0 0) (replicate 1600 0) 1500 []
      (omega (arith, length-replicate {A = ℕ} 1600 0)) (omega arith) (omega arith)

kinds-IsAwaited_example :
    Awaits exchange.encode exchange.decode pcap 500 host 0xA00B never station 1
      (vs_reset_ind_sndrcv exchange.encode exchange.decode pcap 1 host station 500 1 [])
    × Awaits exchange.encode exchange.decode pcap 500 host 0xA10D all_fragments station 1
        (vs_get_pwm_stats_sndrcv exchange.encode exchange.decode pcap 1 host station 500 1 [])
    × Awaits exchange.encode exchange.decode pcap 500 host 0xA111 all_fragments station 1
        (vs_get_pwm_conf_sndrcv exchange.encode exchange.decode pcap 1 host station 500 1 [])
    × Awaits exchange.encode exchange.decode pcap 500 host 0xA115 all_fragments station 1
        (vs_set_pwm_conf_sndrcv exchange.encode exchange.decode pcap 1 host station 500 1 [])
    × Awaits exchange.encode exchange.decode pcap 500 host 0xA129 all_fragments station 0
        (vs_set_tx_cali_sndrcv exchange.encode exchange.decode pcap 1 host station 500 1 [])
    × Awaits exchange.encode exchange.decode pcap 500 host 0xA4FD
        (first_answer 0)
        station
        1
        (vs_file_access_sndrcv exchange.encode exchange.decode pcap 1 host station 500 1 [] 0)
    × Awaits exchange.encode exchange.decode pcap 500 host 0xA12A all_fragments zero_mac_addr 0
        (vs_set_tx_cali_ind_rcv exchange.encode exchange.decode pcap 1 host station 500 1 [])
kinds-IsAwaited_example =
    kinds-IsAwaited exchange.encode exchange.decode pcap 500 host 1 station 1 [] (omega arith)
      answers-IsCapture few 0
