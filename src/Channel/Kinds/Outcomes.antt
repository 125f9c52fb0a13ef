-- ===== src/Channel/Kinds/Outcomes.antt =====
-- Where the answers of the exchanges for Mstar stations come from.
use tulum_utils.Base.{
  ℕ, ◌<◌, ◌≡◌, ◌≢◌, arith, Bytes, [], List, Option, none, some, All, length, subst, ◌⊎◌, inl, inr,
  Bool-cases, ◌==◌, ==_iff, refl, Bool, String,
}
use tulum_utils.Errors.{ErrorStack}
use tulum_utils.Frame.Layout.{MmePacket}
use tulum_utils.Channel.Callback.{CallbackData, zero_mac_addr}
use tulum_utils.Channel.Pcap.{Pcap}
use tulum_utils.Channel.Run.{Run, returns, fault, no_fuel}
use tulum_utils.Channel.Callback.Chain.{IsCapture}
use tulum_utils.Channel.Exchange.{Outcome, filter_failure, sndrcv}
use tulum_utils.Channel.Exchange.Receive.{packets_from}
use tulum_utils.Channel.Exchange.Answers.{IsAwaited, IsAnswered, await-IsAnswered, sndrcv-IsAnswer}
use tulum_utils.Channel.Kinds.{
  sndrcv_with, all_fragments, never, first_answer, vs_reset_ind_sndrcv, vs_get_pwm_stats_sndrcv,
  vs_get_pwm_conf_sndrcv, vs_set_pwm_conf_sndrcv, vs_set_tx_cali_sndrcv, vs_file_access_sndrcv,
  vs_set_tx_cali_ind_rcv, ind_rcv_after,
}

module _ {ℓ} {Cnf : Type ℓ} (encode : Bytes → Bytes → Option MmePacket)
    (decode : List MmePacket → Option (List Cnf)) (pcap : Pcap) (timeout_ms : ℕ)
    (host : Bytes) where
  -- What an exchange leaves that returns: a code other than 0, or as response the answer of type `kind`
  -- that was waited for until `enough` came.
  abbrev pub Awaits : ℕ → (CallbackData → Bool) → Bytes → ℕ → Run (Outcome Cnf) → Type ℓ
  Awaits kind enough station num_fragments (returns o) =
      (o.rc ≢ 0)
      ⊎ IsAwaited (sndrcv_with encode decode kind enough) pcap timeout_ms host station num_fragments
          o.response
  Awaits kind enough station num_fragments fault = Unit
  Awaits kind enough station num_fragments no_fuel = Unit

  Awaits_lem :
      (kind : ℕ) (enough : CallbackData → Bool) (station : Bytes) (n : ℕ) (run : Run (Outcome Cnf))
      → ((o : Outcome Cnf)
          → run ≡ returns o
          → o.rc ≡ 0
          → IsAwaited
              (sndrcv_with encode decode kind enough)
              pcap
              timeout_ms
              host
              station
              n
              o.response)
      → Awaits kind enough station n run
  Awaits_lem kind enough station n fault h = tt
  Awaits_lem kind enough station n no_fuel h = tt
  Awaits_lem kind enough station n (returns o) h = elim (Bool-cases (o.rc == 0)) [
    | inl ok ↦ inr (h o refl ((==_iff o.rc 0).0 ok))
    | inr bad ↦ inl (ground (arith, bad))
  ]

  module _ (fuel : ℕ) (station : Bytes) (num_fragments : ℕ) (errors : ErrorStack)
      (some_time : timeout_ms ≢ 0) (captures : (n : ℕ) → All IsCapture (pcap.rounds n).packets)
      (few : (k : ℕ) → length (packets_from pcap 0 k) < 4294967296) where
    awaits_lem :
        (kind : ℕ) (enough : CallbackData → Bool) (n : ℕ)
        → kind ≢ 0
        → Awaits kind enough station n (
            sndrcv
              (sndrcv_with encode decode kind enough)
              pcap
              fuel
              host
              station
              timeout_ms
              n
              errors)
    awaits_lem kind enough n some_kind = Awaits_lem kind enough station n _ (λ o e ok.
        sndrcv-IsAnswer (sndrcv_with encode decode kind enough) pcap timeout_ms host station n
          some_kind some_time captures few fuel errors o e ok)

    ind_rcv_lem :
        (failure : Option String)
        → Awaits 0xA12A all_fragments zero_mac_addr 0 (
            ind_rcv_after encode decode pcap fuel host station timeout_ms num_fragments errors
              failure)
    unfolding ind_rcv_after IsAnswered
    ind_rcv_lem none = Awaits_lem 0xA12A all_fragments zero_mac_addr 0 _ (λ o e ok.
        subst
          (IsAnswered (sndrcv_with encode decode 0xA12A all_fragments) pcap timeout_ms host
            zero_mac_addr 0 (omega arith) some_time captures few)
          e
          (await-IsAnswered (sndrcv_with encode decode 0xA12A all_fragments) pcap timeout_ms host
            zero_mac_addr 0 (omega arith) some_time captures few fuel [] errors)
          ok)
    ind_rcv_lem (some text) = inl (omega arith)

    -- While no packet is shorter than an MME header or longer than a frame, and fewer than 2^32 packets
    -- come in, with a timeout: each of the seven exchanges written out for Mstar stations that returns code
    -- 0 has called pcap_dispatch until the first call after which the wait is over, and its response is
    -- decoded from exactly the frames that came until then for this host and with its own type of answers.
    -- Besides the time and the callback, nothing ends the wait of the reset; that of the two requests about
    -- the configuration of PWM, of the one about its statistics, and of the request and the indication of
    -- the calibration ends when the last frame has the number that makes it complete; and that of the file
    -- access, unless it scans, with one answer. For the two of the calibration no number of fragments is
    -- asked for, and for the indication no station.
    pub kinds-IsAwaited :
        (scan : ℕ)
        → Awaits 0xA00B never station num_fragments (
            vs_reset_ind_sndrcv encode decode pcap fuel host station timeout_ms num_fragments
              errors)
          × Awaits 0xA10D all_fragments station num_fragments (
              vs_get_pwm_stats_sndrcv encode decode pcap fuel host station timeout_ms num_fragments
                errors)
          × Awaits 0xA111 all_fragments station num_fragments (
              vs_get_pwm_conf_sndrcv encode decode pcap fuel host station timeout_ms num_fragments
                errors)
          × Awaits 0xA115 all_fragments station num_fragments (
              vs_set_pwm_conf_sndrcv encode decode pcap fuel host station timeout_ms num_fragments
                errors)
          × Awaits 0xA129 all_fragments station 0 (
              vs_set_tx_cali_sndrcv encode decode pcap fuel host station timeout_ms num_fragments
                errors)
          × Awaits 0xA4FD (first_answer scan) station num_fragments (
              vs_file_access_sndrcv encode decode pcap fuel host station timeout_ms num_fragments
                errors scan)
          × Awaits 0xA12A all_fragments zero_mac_addr 0 (
              vs_set_tx_cali_ind_rcv encode decode pcap fuel host station timeout_ms num_fragments
                errors)
    unfolding vs_reset_ind_sndrcv vs_get_pwm_stats_sndrcv vs_get_pwm_conf_sndrcv
        vs_set_pwm_conf_sndrcv vs_set_tx_cali_sndrcv vs_file_access_sndrcv vs_set_tx_cali_ind_rcv
    kinds-IsAwaited scan = (
      awaits_lem 0xA00B never num_fragments (omega arith),
      awaits_lem 0xA10D all_fragments num_fragments (omega arith),
      awaits_lem 0xA111 all_fragments num_fragments (omega arith),
      awaits_lem 0xA115 all_fragments num_fragments (omega arith),
      awaits_lem 0xA129 all_fragments 0 (omega arith),
      awaits_lem 0xA4FD (first_answer scan) num_fragments (omega arith),
      ind_rcv_lem (filter_failure pcap),
    )
