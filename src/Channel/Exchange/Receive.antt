-- ===== src/Channel/Exchange/Receive.antt =====
-- The wait of an exchange: when it ends, and what it has collected.
use tulum_utils.Base.{
  ℕ, zero, suc, ◌+◌, ◌≤◌, ◌<◌, ◌≡◌, ◌≢◌, ◌==◌, ==_iff, sym, subst, arith, Bool, true, false, not,
  ◌&&◌, Bool-cases, Option-cases, inl, inr, ◌⊎◌, if◌then◌else◌, ◌++◌, [], List, none, some, All,
  length, length-append, append_assoc, append-nil,
}
use tulum_utils.Channel.Clock.{get_elapsed_time_ms}
use tulum_utils.Channel.Callback.{Captured, CallbackData, deliver}
use tulum_utils.Channel.Callback.Chain.{IsCapture, IsCollected, deliver-IsCollected}
use tulum_utils.Channel.Pcap.{Pcap, is_minus_one, is_positive}
use tulum_utils.Channel.Run.{returns, fault, no_fuel}
use tulum_utils.Channel.Exchange.{receive, collected, dispatch_failed, in_time}

-- The time is up after call number n.
abbrev pub IsLate : Pcap → ℕ → ℕ → Type 0
IsLate pcap timeout_ms n =
    in_time (get_elapsed_time_ms pcap.start_time (pcap.rounds n).end_time) timeout_ms ≡ false

-- The wait goes on after call number n, which has left `d`: no error, not enough yet, time left, and
-- no stop.
abbrev pub goes_on : (CallbackData → Bool) → Pcap → ℕ → ℕ → CallbackData → Bool
goes_on enough pcap timeout_ms n d =
    not (is_minus_one (pcap.rounds n).result)
    && (not (is_positive (pcap.rounds n).result && enough d)
        && (in_time (get_elapsed_time_ms pcap.start_time (pcap.rounds n).end_time) timeout_ms
            && not d.stop))

-- The calls from number n on until one after which the wait does not go on, `k` calls later, and which
-- is no error; each delivers its packets, and the last leaves `d'`.
abbrev pub IsWait : (CallbackData → Bool) → Pcap → ℕ → ℕ → ℕ → CallbackData → CallbackData → Type 0
IsWait enough pcap timeout_ms n zero d d' =
    (deliver d (pcap.rounds n).packets ≡ some d')
    × (is_minus_one (pcap.rounds n).result ≡ false)
    × (goes_on enough pcap timeout_ms n d' ≡ false)
IsWait enough pcap timeout_ms n (suc k) d d' =
    (d₁ : CallbackData) × (deliver d (pcap.rounds n).packets ≡ some d₁)
    × (goes_on enough pcap timeout_ms n d₁ ≡ true)
    × IsWait enough pcap timeout_ms (suc n) k d₁ d'

-- The packets of `k` calls, from call number n on.
abbrev pub packets_from : Pcap → ℕ → ℕ → List Captured
packets_from pcap n zero = []
packets_from pcap n (suc k) = (pcap.rounds n).packets ++ packets_from pcap (suc n) k

module _ (enough : CallbackData → Bool) (pcap : Pcap) (timeout_ms : ℕ) where
  receive_round :
      (fuel n : ℕ) (d d' : CallbackData)
      → deliver d (pcap.rounds n).packets ≡ some d'
      → receive enough pcap timeout_ms (suc fuel) n d ≡ (
          if is_minus_one (pcap.rounds n).result
          then returns (dispatch_failed (pcap.rounds n).result)
          else if is_positive (pcap.rounds n).result && enough d'
          then returns (collected d')
          else if in_time (get_elapsed_time_ms pcap.start_time (pcap.rounds n).end_time) timeout_ms
              && not d'.stop
          then receive enough pcap timeout_ms fuel (suc n) d'
          else returns (collected d'))
  unfolding receive
  receive_round fuel n d d' h = rw h

  receive_fault :
      (fuel n : ℕ) (d : CallbackData)
      → deliver d (pcap.rounds n).packets ≡ none
      → receive enough pcap timeout_ms (suc fuel) n d ≡ fault
  unfolding receive
  receive_fault fuel n d h = rw h

  -- A wait that returns frames does so after this call, or goes on.
  receive_outcome :
      (fuel n : ℕ) (d d₁ d' : CallbackData)
      → deliver d (pcap.rounds n).packets ≡ some d₁
      → receive enough pcap timeout_ms (suc fuel) n d ≡ returns (collected d')
      → ((d₁ ≡ d')
          × (is_minus_one (pcap.rounds n).result ≡ false)
          × (goes_on enough pcap timeout_ms n d₁ ≡ false))
        ⊎ ((goes_on enough pcap timeout_ms n d₁ ≡ true)
            × (receive enough pcap timeout_ms fuel (suc n) d₁ ≡ returns (collected d')))
  receive_outcome fuel n d d₁ d' delivered e = ground (arith, receive_round fuel n d d₁ delivered)

  receive_late :
      (fuel n : ℕ) (d : CallbackData)
      → IsLate pcap timeout_ms n
      → receive enough pcap timeout_ms (suc fuel) n d ≢ no_fuel
  receive_late fuel n d late e = elim (Option-cases (deliver d (pcap.rounds n).packets)) [
    | inl f ↦ cc (receive_fault fuel n d f)
    | inr (d', delivered) ↦ ground (arith, receive_round fuel n d d' delivered)
  ]

  receive_later :
      (fuel n : ℕ) (d : CallbackData)
      → ((d' : CallbackData) → receive enough pcap timeout_ms fuel (suc n) d' ≢ no_fuel)
      → receive enough pcap timeout_ms (suc fuel) n d ≢ no_fuel
  receive_later fuel n d rest e = elim (Option-cases (deliver d (pcap.rounds n).packets)) [
    | inl f ↦ cc (receive_fault fuel n d f)
    | inr (d', delivered) ↦ ground (arith, receive_round fuel n d d' delivered, rest d')
  ]

  -- If the elapsed time read after some call of pcap_dispatch exceeds the timeout, as ints, the loop of an exchange has ended by then,
  -- whatever comes in and whatever test it waits for: as many rounds of fuel as lead up to that
  -- call are enough.
  pub receive_ends :
      (fuel n m : ℕ) (d : CallbackData)
      → n ≤ m
      → m < n + fuel
      → IsLate pcap timeout_ms m
      → receive enough pcap timeout_ms fuel n d ≢ no_fuel
  receive_ends zero n m d le lt late = absurd (omega arith)
  receive_ends (suc fuel) n m d le lt late = elim (Bool-cases (n == m)) [
    | inl same ↦
        receive_late fuel n d
          (subst (λ z. IsLate pcap timeout_ms z) (sym ((==_iff n m).0 same)) late)
    | inr other ↦
        receive_later fuel n d
          (λ d'. receive_ends fuel (suc n) m d' (ground (arith)) (omega arith) late)
  ]

module _ (enough : CallbackData → Bool) (pcap : Pcap) (timeout_ms : ℕ) (host station : List ℕ)
    (kind num_fragments : ℕ) (some_kind : kind ≢ 0)
    (captures : (n : ℕ) → All IsCapture (pcap.rounds n).packets) where
  -- What the wait returns has collected the packets of exactly the calls made.
  pub receive-IsCollected :
      (fuel n : ℕ) (before : List Captured) (d d' : CallbackData)
      → IsCollected host station kind num_fragments before d
      → ((k : ℕ) → length before + length (packets_from pcap n k) < 4294967296)
      → receive enough pcap timeout_ms fuel n d ≡ returns (collected d')
      → (k : ℕ) × IsWait enough pcap timeout_ms n k d d'
        × IsCollected host station kind num_fragments (before ++ packets_from pcap n (suc k)) d'
  receive-IsCollected zero n before d d' c few e = unfold receive in absurd (cc e)
  receive-IsCollected (suc fuel) n before d d' c few e =
      let ps = (pcap.rounds n).packets in
      let (d₁, delivered, c₁) =
        deliver-IsCollected host station kind num_fragments some_kind before ps d c (captures n)
          (omega (arith, few 1, length-append ps [])) in
      elim (receive_outcome enough pcap timeout_ms fuel n d d₁ d' delivered e) [
        | inl (last, fine, ended) ↦ (
          0,
          (
            subst (λ z. deliver d ps ≡ some z) last delivered,
            fine,
            subst (λ z. goes_on enough pcap timeout_ms n z ≡ false) last ended,
          ),
          subst (λ z. IsCollected host station kind num_fragments (before ++ z) d')
              (sym (append-nil ps))
              (subst (λ z. IsCollected host station kind num_fragments (before ++ ps) z) last c₁),
        )
        | inr later ↦
            let (k, wait, c₂) =
              receive-IsCollected fuel (suc n) (before ++ ps) d₁ d' c₁
                (λ k. omega (
                  arith,
                  few (suc k),
                  length-append before ps,
                  length-append ps (packets_from pcap (suc n) k),
                ))
                later.1 in
            (
              suc k,
              (d₁, delivered, later.0, wait),
              subst (λ z. IsCollected host station kind num_fragments z d')
                  (append_assoc before ps (packets_from pcap (suc n) (suc k))) c₂,
            )
      ]
