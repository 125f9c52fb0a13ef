-- ===== src/Channel/Exchange/Answers.antt =====
-- What an exchange that succeeds has sent, and where its answer comes from.
use tulum_utils.Base.{
  ℕ, suc, ◌<◌, ◌≡◌, ◌≢◌, ◌==◌, refl, sym, ap, ◌∙◌, subst, arith, Bytes, false, Option-cases, inl,
  inr, [], List, Option, none, some, All, map, select, length,
}
use tulum_utils.Base.Int.{ℤ}
use tulum_utils.Errors.{ErrorStack}
use tulum_utils.Frame.Layout.{EthFrame, MmePacket}
use tulum_utils.Frame.Build.{build_frames}
use tulum_utils.Frame.Defrag.{defrag_frames}
use tulum_utils.Channel.Callback.{CallbackData}
use tulum_utils.Channel.Callback.Chain.{IsCapture, IsCollected, is_wanted, frame_of}
use tulum_utils.Channel.Pcap.{Pcap}
use tulum_utils.Channel.Run.{Run, returns, fault, no_fuel, ◌>>=◌}
use tulum_utils.Channel.Exchange.{
  Exchange, Outcome, Received, collected, dispatch_failed, filter_failure, receive, finish_exchange,
  await_answers, after_sending, callback_data, sndrcv,
}
use tulum_utils.Channel.Exchange.Receive.{IsWait, packets_from, receive-IsCollected}

-- The frames that came for this host with the type waited for, in the first `k` calls, were put
-- together and decoded to this.
abbrev pub IsAnswer {ℓ} : {Cnf : Type ℓ} → Exchange Cnf → Pcap → Bytes → ℕ → List Cnf → Type ℓ
IsAnswer x pcap host k response =
    (mme : List MmePacket) × (defrag_frames
        (map frame_of (select (is_wanted host x.answer_type) (packets_from pcap 0 k)))
      ≡ some mme)
    × (x.decode mme ≡ some response)

-- The wait has ended after call number `k`, from 0, and not before; the response is the answer of the
-- calls up to that one.
abbrev pub IsAwaited {ℓ} :
    {Cnf : Type ℓ} → Exchange Cnf → Pcap → ℕ → Bytes → Bytes → ℕ → List Cnf → Type ℓ
IsAwaited x pcap timeout_ms host station num_fragments response =
    (k : ℕ) × (d : CallbackData) × IsWait x.enough pcap timeout_ms 0 k
      (callback_data x host station num_fragments) d
    × IsAnswer x pcap host (suc k) response

module _ {ℓ} {Cnf : Type ℓ} (x : Exchange Cnf) (pcap : Pcap) (timeout_ms : ℕ)
    (host station : List ℕ) (num_fragments : ℕ) (some_kind : x.answer_type ≢ 0)
    (some_time : timeout_ms ≢ 0) (captures : (n : ℕ) → All IsCapture (pcap.rounds n).packets)
    (few : (k : ℕ) → length (packets_from pcap 0 k) < 4294967296) where
  unfoldable pub IsAnswered : Run (Outcome Cnf) → Type ℓ
  IsAnswered (returns o) =
      o.rc ≡ 0 → IsAwaited x pcap timeout_ms host station num_fragments o.response
  IsAnswered fault = Unit
  IsAnswered no_fuel = Unit

  IsCollected-start :
      IsCollected host station x.answer_type num_fragments []
        (callback_data x host station num_fragments)
  IsCollected-start = record {
    host_is = refl;
    station_is = refl;
    kind_is = refl;
    number_is = refl;
    frames = refl;
    counted = refl;
    latest = refl;
    stopped = ground arith;
  }

  finish-IsAnswered :
      (fuel : ℕ) (sent : List EthFrame) (errors : ErrorStack) (r : Run Received)
      → receive x.enough pcap timeout_ms fuel 0 (callback_data x host station num_fragments) ≡ r
      → IsAnswered (r >>= finish_exchange x pcap sent errors)
  unfolding IsAnswered finish_exchange
  finish-IsAnswered fuel sent errors fault e = tt
  finish-IsAnswered fuel sent errors no_fuel e = tt
  finish-IsAnswered fuel sent errors (returns (dispatch_failed r)) e =
      λ z. absurd (omega (arith, z))
  finish-IsAnswered fuel sent errors (returns (collected d)) e =
      let (k, wait, c) =
        receive-IsCollected x.enough pcap timeout_ms host station x.answer_type num_fragments
          some_kind captures fuel 0 [] (callback_data x host station num_fragments) d
          IsCollected-start (λ k. omega (arith, few k)) e in
      elim (Option-cases (defrag_frames d.rx_frames)) [
        | inl f ↦ rw f tt
        | inr (mme, reassembled) ↦ rw reassembled (elim (Option-cases (x.decode mme)) [
          | inl f ↦ rw f tt
          | inr (response, decoded) ↦
              rw decoded
                (λ z. (k, d, wait, (mme, ap defrag_frames (sym c.frames) ∙ reassembled, decoded)))
        ])
      ]

  pub await-IsAnswered :
      (fuel : ℕ) (sent : List EthFrame) (errors : ErrorStack)
      → IsAnswered (
          await_answers x pcap fuel timeout_ms
            (callback_data x host station num_fragments)
            sent
            errors)
  unfolding await_answers
  await-IsAnswered fuel sent errors =
      let asked : (timeout_ms == 0) ≡ false = ground (arith, some_time) in
      rw asked (finish-IsAnswered fuel sent errors _ refl)

  sent-IsAnswered :
      (fuel : ℕ) (errors : ErrorStack) (result : List EthFrame × Option ℤ)
      → IsAnswered (
          after_sending x pcap fuel timeout_ms
            (callback_data x host station num_fragments)
            errors
            result)
  unfolding after_sending IsAnswered
  sent-IsAnswered fuel errors (sent, some r) = λ z. absurd (omega (arith, z))
  sent-IsAnswered fuel errors (sent, none) = await-IsAnswered fuel sent errors

  sndrcv-IsAnswered :
      (fuel : ℕ) (errors : ErrorStack)
      → IsAnswered (sndrcv x pcap fuel host station timeout_ms num_fragments errors)
  unfolding sndrcv IsAnswered
  sndrcv-IsAnswered fuel errors = elim (Option-cases (x.encode station host)) [
    | inl f ↦ rw f tt
    | inr (packet, encoded) ↦ rw encoded (elim (Option-cases (build_frames packet 60)) [
      | inl f ↦ rw f tt
      | inr (frames, framed) ↦ rw framed (elim (Option-cases (filter_failure pcap)) [
        | inl set_up ↦ rw set_up (sent-IsAnswered fuel errors _)
        | inr (text, failed) ↦ rw failed (λ z. absurd (omega (arith, z)))
      ])
    ])
  ]

  -- While no packet is shorter than an MME header or longer than a frame, and fewer than 2^32
  -- packets come in: an exchange with a timeout that returns code 0 has called pcap_dispatch until the
  -- first call after which enough has come, the time is up or the callback says stop, and no call
  -- has failed; and its response is what the decoder makes of the messages put together from exactly
  -- the frames that came in these calls for this host and with the type waited for, in their order.
  pub sndrcv-IsAnswer :
      (fuel : ℕ) (errors : ErrorStack) (o : Outcome Cnf)
      → sndrcv x pcap fuel host station timeout_ms num_fragments errors ≡ returns o
      → o.rc ≡ 0
      → IsAwaited x pcap timeout_ms host station num_fragments o.response
  unfolding IsAnswered
  sndrcv-IsAnswer fuel errors o e = subst IsAnswered e (sndrcv-IsAnswered fuel errors)
