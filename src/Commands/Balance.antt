-- ===== src/Commands/Balance.antt =====
-- The channels that are open while commands of main run.
use tulum_utils.Base.{
  ℕ, suc, ◌≡◌, refl, sym, subst, ap, ◌∙◌, Option, none, some, >>=-eq-some, List, [], ◌∷◌, Bytes,
}
use tulum_utils.Base.Int.{ℤ}
use mathlib.Core.Option.{some_inj}
use tulum_utils.Interfaces.{If, get_interface_by_index_or_name}
use tulum_utils.Commands.{
  Fct, Library, Opened, opened, refused, unset, open_channel, open_among, open_found, with_channel,
  open_chan, execute_on, execute_on_channel, list_interfaces, open_interface, for_interfaces,
}

module _ {W C : Type 0} (L : Library W C) (count : W → ℕ) where
  -- What opening and closing a channel do to a number of channels.
  pub record IsCounted : Type 0 where
    pub listing : (w : W) → count (L.get_interfaces w).1 ≡ count w
    pub opening :
        (i : If) (w : W) (c : C) (w' : W)
        → open_chan L i w ≡ (some c, w')
        → count w' ≡ suc (count w)
    pub failing : (i : If) (w : W) (w' : W) → open_chan L i w ≡ (none, w') → count w' ≡ count w
    pub closing : (c : C) (w : W) (n : ℕ) → count w ≡ suc n → count (L.close_chan c w) ≡ n

  unfoldable pub Keeps : Fct W → Type 0
  Keeps f = (argv : List Bytes) (w : W) (r : ℤ × W) → f argv w ≡ some r → count r.1 ≡ count w

  pub kept_at :
      (f : Fct W)
      → Keeps f
      → (argv : List Bytes) (w : W) (r : ℤ × W) → f argv w ≡ some r
      → count r.1 ≡ count w
  unfolding Keeps
  kept_at f kept = kept

  -- A channel has been added to `n` of them, or none.
  abbrev Adds : ℕ → Opened C × W → Type 0
  Adds n (opened c, w) = count w ≡ suc n
  Adds n (refused rv, w) = count w ≡ n
  Adds n (unset, w) = count w ≡ n

  module _ (counted : IsCounted) where
    with_channel_lem :
        (i : If) (w : W) (r : Option C × W) → open_chan L i w ≡ r → Adds (count w) (with_channel r)
    with_channel_lem i w (none, w') e = counted.failing i w w' e
    with_channel_lem i w (some c, w') e = counted.opening i w c w' e

    open_found_lem :
        (found : Option If) (w : W) (n : ℕ) → count w ≡ n → Adds n (open_found L found w)
    open_found_lem none w n e = e
    open_found_lem (some i) w n e =
        subst (λ m. Adds m (with_channel (open_chan L i w))) e
          (with_channel_lem i w (open_chan L i w) refl)

    open_among_lem :
        (name : Bytes) (n : ℕ) (r : Option (List If) × W)
        → count r.1 ≡ n
        → Adds n (open_among L name r)
    open_among_lem name n (none, w) e = e
    open_among_lem name n (some [], w) e = e
    open_among_lem name n (some (i ∷ is), w) e =
        open_found_lem (get_interface_by_index_or_name L.strtoul (i ∷ is) name).0 w n e

    execute_on_lem :
        (f : C → Fct W) (kept : (c : C) → Keeps (f c)) (argv : List Bytes) (n : ℕ)
        (o : Opened C × W)
        → Adds n o
        → (r : ℤ × W) → execute_on L (some f) argv o ≡ some r
        → count r.1 ≡ n
    unfolding Keeps
    execute_on_lem f kept argv n (refused rv, w) a r h =
        sym (ap (λ x. count x.1) (some_inj.0 h)) ∙ a
    execute_on_lem f kept argv n (unset, w) a r h = cc
    execute_on_lem f kept argv n (opened c, w) a r h =
        let (s, run, rest) = >>=-eq-some (f c argv w) _ h in
        sym (ap (λ x. count x.1) (some_inj.0 rest))
        ∙ counted.closing c s.1 n (kept c argv w s run ∙ a)

    execute_none_lem :
        (argv : List Bytes) (n : ℕ) (o : Opened C × W)
        → Adds n o
        → (r : ℤ × W) → execute_on L none argv o ≡ some r
        → count r.1 ≡ n
    execute_none_lem argv n (refused rv, w) a r h = sym (ap (λ x. count x.1) (some_inj.0 h)) ∙ a
    execute_none_lem argv n (unset, w) a r h = cc
    execute_none_lem argv n (opened c, w) a r h =
        sym (ap (λ x. count x.1) (some_inj.0 h)) ∙ counted.closing c w n a

    open_channel_lem : (name : Bytes) (w : W) → Adds (count w) (open_channel L name w)
    unfolding open_channel
    open_channel_lem name w = open_among_lem name (count w) (L.get_interfaces w) (counted.listing w)

    pub Keeps-execute_on_channel :
        (name : Bytes) (f : C → Fct W)
        → ((c : C) → Keeps (f c))
        → Keeps (execute_on_channel L name (some f))
    unfolding Keeps execute_on_channel
    Keeps-execute_on_channel name f kept argv w r h =
        execute_on_lem f kept argv (count w) (open_channel L name w) (open_channel_lem name w) r h

    pub same : (w : W) (rv : ℤ) (r : ℤ × W) → some (rv, w) ≡ some r → count r.1 ≡ count w
    same w rv r h = sym (ap (λ x. count x.1) (some_inj.0 h))

    pub Keeps-list_interfaces : Keeps (list_interfaces L)
    unfolding Keeps list_interfaces
    Keeps-list_interfaces argv w r h = same _ _ r h ∙ counted.listing w

    pub Keeps-open_interface : Keeps (open_interface L)
    unfolding Keeps open_interface execute_on_channel
    Keeps-open_interface [] w r h = same w _ r h
    Keeps-open_interface (name ∷ []) w r h =
        execute_none_lem [] (count w) (open_channel L name w) (open_channel_lem name w) r h
    Keeps-open_interface (name ∷ b ∷ rest) w r h = same w _ r h

    pub for_interfaces_lem :
        (f : C → Fct W)
        → ((c : C) → Keeps (f c))
        → (is : List If) (rv : ℤ) (w : W) (r : ℤ × W) → for_interfaces L f is rv w ≡ some r
        → count r.1 ≡ count w
    unfolding for_interfaces
    for_interfaces_lem f kept [] rv w r h = same w rv r h
    for_interfaces_lem f kept (i ∷ is) rv w r h =
        let (s, run, rest) = >>=-eq-some (execute_on_channel L i.name (some f) [] w) _ h in
        for_interfaces_lem f kept is _ s.1 r rest
        ∙ kept_at (execute_on_channel L i.name (some f)) (Keeps-execute_on_channel i.name f kept) []
            w s run
