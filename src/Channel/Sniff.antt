-- ===== src/Channel/Sniff.antt =====
-- hpav_sniff (hpav_test/libhpav/hpav_mme.c): every call of pcap_dispatch that has handled packets is
-- followed by a call of the caller's callback.
use tulum_utils.Base.{
  ℕ, zero, suc, ◌+◌, ◌≤◌, ◌<◌, ◌≡◌, ◌≢◌, sym, subst, arith, Bool-cases, Option-cases, inl, inr,
  ==_iff, ◌==◌, Bytes, Bool, true, false, if◌then◌else◌, List, [], none, some,
}
use tulum_utils.Base.Int.{ℤ}
use tulum_utils.Errors.{ErrorStack}
use tulum_utils.Frame.Layout.{EthFrame}
use tulum_utils.Channel.Callback.{CallbackData, zero_callback_data, deliver}
use tulum_utils.Channel.Pcap.{Pcap, is_minus_one, is_positive, is_zero, minus_one}
use tulum_utils.Channel.Run.{Run, returns, fault, no_fuel, ◌>>=◌, lift}
use tulum_utils.Channel.Exchange.{hpav_ok, hpav_error_pcap_error, add_pcap_error, filter_failure}

-- The result code, the callback's state, and the error stack.
pub record Sniffed {ℓ} (S : Type ℓ) : Type ℓ where
  pub rc : ℕ
  pub user : S
  pub errors : ErrorStack

-- The caller's callback: its state, and the frames that it is given; `true` stops the capture.
module _ {ℓ} {S : Type ℓ} (callback : S → List EthFrame → S × Bool) (pcap : Pcap) where
  -- Who is called back, and with what, after a call with this result: the chain of frames, null
  -- (as an empty chain), or nobody.
  unfoldable pub called_back : ℤ → CallbackData → S → S × Bool
  called_back result d user =
      if is_positive result
      then callback user d.rx_frames
      else if is_zero result
      then (user, false)
      else callback user []

  -- The do-while loop from call number n on, on fuel.
  pub sniff_loop : ℕ → ℕ → CallbackData → S → ErrorStack → Run (Sniffed S)
  sniff_loop zero n d user errors = no_fuel
  sniff_loop (suc fuel) n d user errors = do
    let round = pcap.rounds n
    d' ← lift (deliver d round.packets)
    let (user', stop) = called_back round.result d' user
    let rest = sniff_loop fuel (suc n) d' user' errors
    if is_minus_one round.result
        then returns (record {
          rc = hpav_error_pcap_error;
          user = user;
          errors = add_pcap_error pcap errors "pcap_dispatch failed" round.result;
        })
        else if stop
        then returns (record { rc = hpav_ok; user = user'; errors = errors })
        else if d'.stop
        then returns (record { rc = hpav_ok; user = user'; errors = errors })
        else rest

  unfoldable pub sniff : ℕ → Bytes → S → ErrorStack → Run (Sniffed S)
  sniff fuel mac_addr user errors = elim (filter_failure pcap) [
    | some message ↦ returns (record {
      rc = hpav_error_pcap_error;
      user = user;
      errors = add_pcap_error pcap errors message minus_one;
    })
    | none ↦ sniff_loop fuel 0 (record zero_callback_data { src_mac_addr = mac_addr }) user errors
  ]

  sniff_round :
      (fuel n : ℕ) (d d' : CallbackData) (user : S) (errors : ErrorStack)
      → deliver d (pcap.rounds n).packets ≡ some d'
      → sniff_loop (suc fuel) n d user errors ≡ (
          if is_minus_one (pcap.rounds n).result
          then returns (record {
            rc = hpav_error_pcap_error;
            user = user;
            errors = add_pcap_error pcap errors "pcap_dispatch failed" (pcap.rounds n).result;
          })
          else if (called_back (pcap.rounds n).result d' user).1
          then returns (record {
            rc = hpav_ok;
            user = (called_back (pcap.rounds n).result d' user).0;
            errors = errors;
          })
          else if d'.stop
          then returns (record {
            rc = hpav_ok;
            user = (called_back (pcap.rounds n).result d' user).0;
            errors = errors;
          })
          else sniff_loop fuel (suc n) d' (called_back (pcap.rounds n).result d' user).0 errors)
  unfolding sniff_loop
  sniff_round fuel n d d' user errors delivered = rw delivered

  sniff_fault :
      (fuel n : ℕ) (d : CallbackData) (user : S) (errors : ErrorStack)
      → deliver d (pcap.rounds n).packets ≡ none
      → sniff_loop (suc fuel) n d user errors ≡ fault
  unfolding sniff_loop
  sniff_fault fuel n d user errors h = rw h

  -- The callback stops the capture whenever it is called.
  abbrev pub IsStopping : Type ℓ
  IsStopping = (user : S) (frames : List EthFrame) → (callback user frames).1 ≡ true

  stops_here :
      IsStopping
      → (fuel n : ℕ) (d : CallbackData) (user : S) (errors : ErrorStack)
      → is_zero (pcap.rounds n).result ≡ false
      → sniff_loop (suc fuel) n d user errors ≢ no_fuel
  unfolding called_back
  stops_here stopping fuel n d user errors some_result e =
      elim (Option-cases (deliver d (pcap.rounds n).packets)) [
        | inl f ↦ cc (sniff_fault fuel n d user errors f)
        | inr (d', delivered) ↦ ground (
          arith,
          sniff_round fuel n d d' user errors delivered,
          stopping user d'.rx_frames,
          stopping user [],
        )
      ]

  stops_later :
      (fuel n : ℕ) (d : CallbackData) (user : S) (errors : ErrorStack)
      → ((d' : CallbackData) (user' : S) → sniff_loop fuel (suc n) d' user' errors ≢ no_fuel)
      → sniff_loop (suc fuel) n d user errors ≢ no_fuel
  stops_later fuel n d user errors rest e =
      elim (Option-cases (deliver d (pcap.rounds n).packets)) [
        | inl f ↦ cc (sniff_fault fuel n d user errors f)
        | inr (d', delivered) ↦ ground (
          arith,
          sniff_round fuel n d d' user errors delivered,
          rest d' (called_back (pcap.rounds n).result d' user).0,
        )
      ]

  -- With a callback that stops the capture whenever it is called, the loop of the sniffer ends
  -- with the first call of pcap_dispatch whose result is not 0, if not before: as many rounds of
  -- fuel as lead up to that call are enough.
  pub sniff_ends :
      IsStopping
      → (fuel n m : ℕ) (d : CallbackData) (user : S) (errors : ErrorStack) → n ≤ m
      → m < n + fuel
      → is_zero (pcap.rounds m).result ≡ false
      → sniff_loop fuel n d user errors ≢ no_fuel
  sniff_ends stopping zero n m d user errors le lt some_result = absurd (omega arith)
  sniff_ends stopping (suc fuel) n m d user errors le lt some_result = elim (Bool-cases (n == m)) [
    | inl same ↦ stops_here stopping fuel n d user errors (
        subst (λ z. is_zero (pcap.rounds z).result ≡ false) (sym ((==_iff n m).0 same)) some_result)
    | inr other ↦ stops_later fuel n d user errors (λ d' user'.
        sniff_ends stopping fuel (suc n) m d' user' errors (ground arith) (omega arith) some_result)
  ]
