-- ===== src/Channel/Callback/Chain.antt =====
-- What rx_callback collects over a sequence of packets.
use tulum_utils.Base.{
  ℕ, ◌+◌, ◌-◌, ◌%◌, ◌≤◌, ◌<◌, ◌≡◌, ◌≢◌, refl, sym, ap, ◌∙◌, subst, arith, Bool, true, false, not,
  ◌&&◌, ◌||◌, leb, ◌==◌, if◌then◌else◌, Bool-cases, inl, inr, ◌∷◌, ◌++◌, [], List, some, All, map,
  select, length, bytes_eq, byte_at, le16_at, slice, copy_out_lem, copy_onto_lem, length-append,
  select-append, replicate, drop-replicate, length-replicate, append_assoc, append-nil,
}
use tulum_utils.Frame.Layout.{EthFrame, zero_frame, wire_size}
use tulum_utils.Channel.Callback.{
  Captured, caplen, CallbackData, broadcast_mac_addr, accepts, received_frame, read_fn, next_count,
  add_frame, rx_callback, deliver,
}

-- The packet holds an MME header, and fits in a frame.
abbrev pub IsCapture : Captured → Type 0
IsCapture packet = (18 ≤ caplen packet) × (caplen packet ≤ wire_size)

-- Addressed to `host`, with an MME of type `kind`; every type fits if `kind` is 0.
abbrev pub is_wanted : List ℕ → ℕ → Captured → Bool
is_wanted host kind packet =
    bytes_eq (slice 0 6 packet.bytes) host
    && (le16_at (slice 15 2 packet.bytes) 0 == kind || kind == 0)

-- The frame that stands for a packet.
unfoldable pub frame_of : Captured → EthFrame
frame_of packet = record {
  wire = packet.bytes ++ replicate (wire_size - caplen packet) 0;
  frame_size = caplen packet;
  ts = packet.ts;
}

abbrev fn_of : Captured → ℕ
fn_of packet = byte_at (slice 17 1 packet.bytes) 0 % 16

accepts-is_wanted :
    (d : CallbackData) (p : Captured)
    → IsCapture p
    → accepts d p ≡ some (is_wanted d.src_mac_addr d.mme_type p)
unfolding accepts
accepts-is_wanted d p h =
    rw (copy_out_lem 0 6 p.bytes (omega arith))
      (elim (Bool-cases (bytes_eq (slice 0 6 p.bytes) d.src_mac_addr)) [
        | inl mine ↦ rw (mine, copy_out_lem 15 2 p.bytes (omega arith))
        | inr other ↦ rw other
      ])

received_frame-frame_of : (p : Captured) → IsCapture p → received_frame p ≡ some (frame_of p)
unfolding received_frame frame_of zero_frame
received_frame-frame_of p h = rw (
  copy_onto_lem p.bytes (replicate wire_size 0)
      (omega (arith, length-replicate {A = ℕ} wire_size 0)),
  drop-replicate {A = ℕ} (length p.bytes) wire_size 0,
)

read_fn_lem : (p : Captured) (fn : ℕ) → IsCapture p → read_fn p fn ≡ some (fn_of p)
unfolding read_fn
read_fn_lem p fn h = ground (arith, copy_out_lem 17 1 p.bytes)

rx_callback_lem :
    (d : CallbackData) (p : Captured)
    → IsCapture p
    → rx_callback d p
      ≡ some
          (if is_wanted d.src_mac_addr d.mme_type p then add_frame d (frame_of p) (fn_of p) else d)
unfolding rx_callback
rx_callback_lem d p h =
    rw (accepts-is_wanted d p h) (elim (Bool-cases (is_wanted d.src_mac_addr d.mme_type p)) [
      | inl wanted ↦ rw (wanted, received_frame-frame_of p h, read_fn_lem p d.fn h)
      | inr unwanted ↦ rw unwanted
    ])

abbrev pub is_empty {ℓ} : {A : Type ℓ} → List A → Bool
is_empty [] = true
is_empty (_ ∷ _) = false

-- What has been collected, waiting at `host` for answers of type `kind` from `station`, once
-- `packets` have come in.
pub record IsCollected (host station : List ℕ) (kind num_fragments : ℕ) (packets : List Captured)
    (d : CallbackData) : Type 0 where
  pub host_is : d.src_mac_addr ≡ host
  pub station_is : d.sta_mac_addr ≡ station
  pub kind_is : d.mme_type ≡ kind
  pub number_is : d.num_fragments ≡ num_fragments
  pub frames : d.rx_frames ≡ map frame_of (select (is_wanted host kind) packets)
  pub counted : d.num_fragments_received ≡ length (select (is_wanted host kind) packets)
  pub latest : d.latest_is_null ≡ is_empty d.rx_frames
  pub stopped : d.stop ≡ (
      not (bytes_eq station broadcast_mac_addr)
      && (not (num_fragments == 0)
          && leb num_fragments (length (select (is_wanted host kind) packets))))

length-select : (q : Captured → Bool) (ps : List Captured) → length (select q ps) ≤ length ps
length-select q [] = omega arith
length-select q (p ∷ ps) = ground (arith, length-select q ps)

map-append_one :
    (ps : List Captured) (p : Captured)
    → map frame_of (ps ++ p ∷ []) ≡ map frame_of ps ++ frame_of p ∷ []
map-append_one [] p = refl
map-append_one (q ∷ ps) p = ap (◌∷◌ (frame_of q)) (map-append_one ps p)

is_empty-append_one {ℓ} : {A : Type ℓ} (xs : List A) (x : A) → is_empty (xs ++ x ∷ []) ≡ false
is_empty-append_one [] x = refl
is_empty-append_one (y ∷ xs) x = refl

empty-of {ℓ} : {A : Type ℓ} (xs : List A) → is_empty xs ≡ true → xs ≡ []
empty-of [] h = refl
empty-of (x ∷ xs) h = cc

rx_frames-add_frame :
    (d : CallbackData) (f : EthFrame) (fn : ℕ)
    → d.mme_type ≢ 0
    → d.latest_is_null ≡ is_empty d.rx_frames
    → (add_frame d f fn).rx_frames ≡ d.rx_frames ++ f ∷ []
unfolding add_frame
rx_frames-add_frame d f fn k h =
    ground (arith, empty-of d.rx_frames, Bool-cases (is_empty d.rx_frames))

-- Once set, the flag is set by every later count.
stop_step :
    (unicast : Bool) (num n : ℕ) (stop : Bool)
    → stop ≡ (unicast && (not (num == 0) && leb num n))
    → ((unicast && (not (num == 0) && leb num (n + 1))) || stop)
      ≡ (unicast && (not (num == 0) && leb num (n + 1)))
stop_step unicast num n stop h = ground arith

module _ (host station : List ℕ) (kind num_fragments : ℕ) (some_kind : kind ≢ 0)
    (ps : List Captured) (d : CallbackData) (p : Captured)
    (c : IsCollected host station kind num_fragments ps d) where
  add_frame-IsCollected :
      is_wanted host kind p ≡ true
      → length ps + 1 < 4294967296
      → IsCollected host station kind num_fragments
          (ps ++ p ∷ [])
          (add_frame d (frame_of p) (fn_of p))
  unfolding add_frame
  add_frame-IsCollected w small =
      let before = select (is_wanted host kind) ps in
      let grown : select (is_wanted host kind) (ps ++ p ∷ []) ≡ before ++ p ∷ [] =
        select-append (is_wanted host kind) ps (p ∷ []) ∙ ap (λ z. before ++ z) (rw w refl) in
      let chained =
        rx_frames-add_frame d (frame_of p) (fn_of p) (rw c.kind_is some_kind) c.latest in
      let count = length-append before (p ∷ []) in
      let few = length-select (is_wanted host kind) ps in
      let counted : next_count d ≡ length before + 1 = omega (arith, few, c.counted) in
      let one_more : length (before ++ p ∷ []) ≡ length before + 1 = omega (arith, count) in
      record {
        host_is = c.host_is;
        station_is = c.station_is;
        kind_is = c.kind_is;
        number_is = c.number_is;
        frames = rw (grown, map-append_one before p, ← c.frames) chained;
        counted = rw grown (omega (arith, count, few, c.counted));
        latest = rw chained (sym (is_empty-append_one d.rx_frames (frame_of p)));
        stopped =
            rw (grown, c.station_is, c.number_is, counted, one_more)
              (stop_step _ num_fragments (length before) d.stop c.stopped);
      }

  skip-IsCollected :
      is_wanted host kind p ≡ false → IsCollected host station kind num_fragments (ps ++ p ∷ []) d
  skip-IsCollected w =
      let before = select (is_wanted host kind) ps in
      let same : select (is_wanted host kind) (ps ++ p ∷ []) ≡ before =
        select-append (is_wanted host kind) ps (p ∷ [])
        ∙ ap (λ z. before ++ z) (rw w refl)
        ∙ append-nil before in
      record {
        host_is = c.host_is;
        station_is = c.station_is;
        kind_is = c.kind_is;
        number_is = c.number_is;
        frames = rw same c.frames;
        counted = rw same c.counted;
        latest = c.latest;
        stopped = rw same c.stopped;
      }

  rx_callback-IsCollected :
      IsCapture p
      → length ps + 1 < 4294967296
      → (d' : CallbackData) × (rx_callback d p ≡ some d')
        × IsCollected host station kind num_fragments (ps ++ p ∷ []) d'
  rx_callback-IsCollected h small =
      let here : is_wanted d.src_mac_addr d.mme_type p ≡ is_wanted host kind p =
        rw (c.host_is, c.kind_is) refl in
      elim (Bool-cases (is_wanted host kind p)) [
        | inl wanted ↦ (
          add_frame d (frame_of p) (fn_of p),
          rx_callback_lem d p h ∙ rw (here, wanted) refl,
          add_frame-IsCollected wanted small,
        )
        | inr unwanted ↦
            (d, rx_callback_lem d p h ∙ rw (here, unwanted) refl, skip-IsCollected unwanted)
      ]

-- While a type is waited for, no packet is shorter than an MME header or longer than a frame, and
-- fewer than 2^32 packets have come in all, no call of the callback faults, and what it has collected is: exactly the frames of the packets
-- for this host and of that type, in the order of their arrival; their number; and the stop flag,
-- set exactly if the station is not the broadcast address, a number of fragments was asked for,
-- and that many have come.
pub deliver-IsCollected :
    (host station : List ℕ) (kind num_fragments : ℕ)
    → kind ≢ 0
    → (before ps : List Captured) (d : CallbackData)
    → IsCollected host station kind num_fragments before d
    → All IsCapture ps
    → length before + length ps < 4294967296
    → (d' : CallbackData) × (deliver d ps ≡ some d')
      × IsCollected host station kind num_fragments (before ++ ps) d'
unfolding deliver
deliver-IsCollected host station kind num_fragments some_kind before [] d c h small =
    (d, refl, rw append-nil c)
deliver-IsCollected host station kind num_fragments some_kind before (p ∷ ps) d c h small =
    let (d₁, called, c₁) =
      rx_callback-IsCollected host station kind num_fragments some_kind before d p c h.0
        (omega arith) in
    let (d₂, delivered, c₂) =
      deliver-IsCollected host station kind num_fragments some_kind (before ++ p ∷ []) ps d₁ c₁ h.1
        (omega (arith, length-append before (p ∷ []))) in
    (
      d₂,
      rw called delivered,
      subst (λ z. IsCollected host station kind num_fragments z d₂)
          (append_assoc before (p ∷ []) ps) c₂,
    )
