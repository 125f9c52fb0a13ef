-- ===== src/Channel/Exchange/Report.antt =====
-- What an exchange leaves behind: its result, the frames sent, the answers and the error stack.
use tulum_utils.Base.{
  ℕ, ◌≡◌, ◌==◌, refl, Bytes, Bool-cases, Option-cases, inl, inr, ◌⊎◌, [], List, Option, none, some,
  String,
}
use tulum_utils.Base.Int.{ℤ}
use tulum_utils.Errors.{ErrorStack}
use tulum_utils.Frame.Layout.{EthFrame}
use tulum_utils.Frame.Build.{build_frames}
use tulum_utils.Frame.Defrag.{defrag_frames}
use tulum_utils.Channel.Callback.{CallbackData}
use tulum_utils.Channel.Pcap.{Pcap, minus_one}
use tulum_utils.Channel.Run.{Run, returns, fault, no_fuel, ◌>>=◌}
use tulum_utils.Channel.Exchange.{
  Exchange, Outcome, Received, collected, dispatch_failed, add_pcap_error, filter_failure, receive,
  finish_exchange, await_answers, after_sending, sndrcv,
}

module _ {ℓ} {Cnf : Type ℓ} (x : Exchange Cnf) (pcap : Pcap) where
  -- Either all went well and the caller's error stack is as it was, or one error of libpcap was
  -- put on top of it and there is no answer.
  abbrev pub IsReported : ErrorStack → Run (Outcome Cnf) → Type ℓ
  IsReported errors (returns o) =
      ((o.rc ≡ 0) × (o.errors ≡ errors))
      ⊎ ((o.rc ≡ 1)
          × (o.response ≡ [])
          × ((text : String) × (r : ℤ) × (o.errors ≡ add_pcap_error pcap errors text r)))
  IsReported errors fault = Unit
  IsReported errors no_fuel = Unit

  finish-IsReported :
      (sent : List EthFrame) (errors : ErrorStack) (r : Received)
      → IsReported errors (finish_exchange x pcap sent errors r)
  unfolding finish_exchange
  finish-IsReported sent errors (dispatch_failed r) =
      inr (refl, refl, ("pcap_dispatch failed", r, refl))
  finish-IsReported sent errors (collected d) = elim (Option-cases (defrag_frames d.rx_frames)) [
    | inl f ↦ rw f tt
    | inr (mme, reassembled) ↦ rw reassembled (elim (Option-cases (x.decode mme)) [
      | inl f ↦ rw f tt
      | inr (response, decoded) ↦ rw decoded (inl (refl, refl))
    ])
  ]

  received-IsReported :
      (sent : List EthFrame) (errors : ErrorStack) (r : Run Received)
      → IsReported errors (r >>= finish_exchange x pcap sent errors)
  received-IsReported sent errors (returns r) = finish-IsReported sent errors r
  received-IsReported sent errors fault = tt
  received-IsReported sent errors no_fuel = tt

  pub await-IsReported :
      (fuel timeout_ms : ℕ) (d : CallbackData) (sent : List EthFrame) (errors : ErrorStack)
      → IsReported errors (await_answers x pcap fuel timeout_ms d sent errors)
  unfolding await_answers
  await-IsReported fuel timeout_ms d sent errors = elim (Bool-cases (timeout_ms == 0)) [
    | inl none_asked ↦ rw none_asked (inl (refl, refl))
    | inr some_asked ↦
        rw some_asked (received-IsReported sent errors (receive x.enough pcap timeout_ms fuel 0 d))
  ]

  sent-IsReported :
      (fuel timeout_ms : ℕ) (d : CallbackData) (errors : ErrorStack)
      (result : List EthFrame × Option ℤ)
      → IsReported errors (after_sending x pcap fuel timeout_ms d errors result)
  unfolding after_sending
  sent-IsReported fuel timeout_ms d errors (sent, some r) =
      inr (refl, refl, ("pcap_sendpacket failed", r, refl))
  sent-IsReported fuel timeout_ms d errors (sent, none) =
      await-IsReported fuel timeout_ms d sent errors

  -- When an exchange returns, either the code is 0 and the caller's error stack is as it was, or
  -- the code is HPAV_ERROR_PCAP_ERROR, there is no answer, and one error of libpcap is on top of
  -- the caller's error stack.
  pub sndrcv-IsReported :
      (fuel : ℕ) (mac_addr sta_mac_addr : Bytes) (timeout_ms num_fragments : ℕ)
      (errors : ErrorStack)
      → IsReported errors (sndrcv x pcap fuel mac_addr sta_mac_addr timeout_ms num_fragments errors)
  unfolding sndrcv
  sndrcv-IsReported fuel mac_addr sta_mac_addr timeout_ms num_fragments errors =
      elim (Option-cases (x.encode sta_mac_addr mac_addr)) [
        | inl f ↦ rw f tt
        | inr (packet, encoded) ↦ rw encoded (elim (Option-cases (build_frames packet 60)) [
          | inl f ↦ rw f tt
          | inr (frames, framed) ↦ rw framed (elim (Option-cases (filter_failure pcap)) [
            | inl set_up ↦ rw set_up (sent-IsReported fuel timeout_ms _ errors _)
            | inr (text, failed) ↦ rw failed (inr (refl, refl, (text, minus_one, refl)))
          ])
        ])
      ]
