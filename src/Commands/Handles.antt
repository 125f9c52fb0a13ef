-- ===== src/Commands/Handles.antt =====
-- The handles of libpcap that main leaves open, over hpav_open_channel and hpav_close_channel.
use tulum_utils.Base.{
  ℕ, zero, suc, ◌+◌, ◌-◌, ◌≤◌, ◌<◌, ◌≡◌, ◌≢◌, refl, sym, ap, ◌∙◌, arith, Option, none, some, List,
  Bytes,
}
use tulum_utils.Base.Int.{ℤ, pos, negsuc}
use tulum_utils.Interfaces.{If}
use tulum_utils.Commands.{Library, open_chan, after_open_live, after_nonblock}
use tulum_utils.Commands.Choice.{Functions, main}
use tulum_utils.Commands.Balance.{IsCounted}
use tulum_utils.Commands.Closed.{AreKept, main-Keeps}

-- How many handles are open, and how many of these a failed pcap_setnonblock has left without a channel.
pub record Handles (W : Type 0) : Type 0 where
  pub open_handles : W → ℕ
  pub left_over : W → ℕ

-- The handles that belong to a channel.
unfoldable pub in_use : {W : Type 0} → Handles W → W → ℕ
in_use H w = H.open_handles w - H.left_over w

module _ {W C : Type 0} (L : Library W C) (H : Handles W) where
  -- Both numbers, after a call.
  abbrev pub Now : W → ℕ → ℕ → Type 0
  Now w m n = (H.open_handles w ≡ m) × (H.left_over w ≡ n)

  -- The calls: a list of interfaces opens nothing; pcap_open_live opens one handle or none;
  -- pcap_setnonblock opens and closes none, and its failure is counted; pcap_close closes one.
  pub record IsTracked : Type 0 where
    pub bounded : (w : W) → H.left_over w ≤ H.open_handles w
    pub listing : (w : W) → Now (L.get_interfaces w).1 (H.open_handles w) (H.left_over w)
    pub open_success :
        (i : If) (w : W) (c : C) (w' : W)
        → L.open_live i w ≡ (some c, w')
        → Now w' (suc (H.open_handles w)) (H.left_over w)
    pub open_failure :
        (i : If) (w : W) (w' : W)
        → L.open_live i w ≡ (none, w')
        → Now w' (H.open_handles w) (H.left_over w)
    pub nonblock_success :
        (c : C) (w w' : W)
        → L.set_nonblock c w ≡ (pos 0, w')
        → Now w' (H.open_handles w) (H.left_over w)
    pub nonblock_failure :
        (c : C) (w w' : W) (r : ℤ)
        → (L.set_nonblock c w ≡ (r, w'))
        → r ≢ pos 0
        → H.left_over w < H.open_handles w
        → Now w' (H.open_handles w) (suc (H.left_over w))
    pub closing :
        (c : C) (w : W)
        → H.left_over w < H.open_handles w
        → Now (L.close_chan c w) (H.open_handles w - 1) (H.left_over w)

  module _ (tracked : IsTracked) where
    nonblock_opening :
        (w : W) (c d : C) (w₁ : W)
        → Now w₁ (suc (H.open_handles w)) (H.left_over w)
        → (r : ℤ × W) → L.set_nonblock c w₁ ≡ r
        → (w' : W) → after_nonblock c r ≡ (some d, w')
        → in_use H w' ≡ suc (in_use H w)
    unfolding in_use
    nonblock_opening w c d w₁ now (pos zero, w₂) set w' e =
        let s = tracked.nonblock_success c w₁ w₂ set in
        ap (in_use H) (sym (ap (λ x. x.1) e))
        ∙ omega (arith, now.0, now.1, s.0, s.1, tracked.bounded w)
    nonblock_opening w c d w₁ now (pos (suc n), w₂) set w' e = cc (ap (λ x. x.0) e)
    nonblock_opening w c d w₁ now (negsuc n, w₂) set w' e = cc (ap (λ x. x.0) e)

    nonblock_failing :
        (w : W) (c : C) (w₁ : W)
        → Now w₁ (suc (H.open_handles w)) (H.left_over w)
        → (r : ℤ × W) → L.set_nonblock c w₁ ≡ r
        → (w' : W) → after_nonblock c r ≡ (none, w')
        → in_use H w' ≡ in_use H w
    unfolding in_use
    nonblock_failing w c w₁ now (pos zero, w₂) set w' e = cc (ap (λ x. x.0) e)
    nonblock_failing w c w₁ now (pos (suc n), w₂) set w' e =
        let s =
          tracked.nonblock_failure c w₁ w₂ (pos (suc n)) set (λ z. cc z)
            (omega (arith, now.0, now.1, tracked.bounded w)) in
        ap (in_use H) (sym (ap (λ x. x.1) e)) ∙ omega (arith, now.0, now.1, s.0, s.1)
    nonblock_failing w c w₁ now (negsuc n, w₂) set w' e =
        let s =
          tracked.nonblock_failure c w₁ w₂ (negsuc n) set (λ z. cc z)
            (omega (arith, now.0, now.1, tracked.bounded w)) in
        ap (in_use H) (sym (ap (λ x. x.1) e)) ∙ omega (arith, now.0, now.1, s.0, s.1)

    live_opening :
        (i : If) (w : W) (r : Option C × W)
        → L.open_live i w ≡ r
        → (d : C) (w' : W) → after_open_live L r ≡ (some d, w')
        → in_use H w' ≡ suc (in_use H w)
    live_opening i w (none, w₁) live d w' e = cc (ap (λ x. x.0) e)
    live_opening i w (some c, w₁) live d w' e =
        nonblock_opening w c d w₁ (tracked.open_success i w c w₁ live) (L.set_nonblock c w₁) refl w'
          e

    live_failing :
        (i : If) (w : W) (r : Option C × W)
        → L.open_live i w ≡ r
        → (w' : W) → after_open_live L r ≡ (none, w')
        → in_use H w' ≡ in_use H w
    unfolding in_use
    live_failing i w (none, w₁) live w' e =
        let s = tracked.open_failure i w w₁ live in
        ap (in_use H) (sym (ap (λ x. x.1) e)) ∙ omega (arith, s.0, s.1)
    live_failing i w (some c, w₁) live w' e =
        nonblock_failing w c w₁ (tracked.open_success i w c w₁ live) (L.set_nonblock c w₁) refl w' e

    tracked-IsCounted : IsCounted L (in_use H)
    unfolding open_chan in_use
    tracked-IsCounted = record {
      listing = λ w. omega (arith, (tracked.listing w).0, (tracked.listing w).1);
      opening = λ i w c w' e. live_opening i w (L.open_live i w) refl c w' e;
      failing = λ i w w' e. live_failing i w (L.open_live i w) refl w' e;
      closing =
          λ c w n h. let s = tracked.closing c w (omega (arith, h)) in omega (arith, h, s.0, s.1);
    }

    -- While the functions that the tables name leave as many handles with a channel as there were, and the
    -- calls of libpcap open and close handles as documented: over a command line that does not fault, the
    -- number of open handles grows by exactly the number of those that a failed pcap_setnonblock leaves
    -- over; without such a failure it stays the same.
    pub main_lem :
        (F : Functions W C)
        → AreKept L F (in_use H)
        → (argv : List Bytes) (w : W) (result : ℕ × W) → main L F argv w ≡ some result
        → H.open_handles result.1 + H.left_over w ≡ H.open_handles w + H.left_over result.1
    main_lem F kept argv w result h =
        unfold in_use in
        omega (
          arith,
          main-Keeps L F (in_use H) tracked-IsCounted kept argv w result h,
          tracked.bounded w,
          tracked.bounded result.1,
        )
