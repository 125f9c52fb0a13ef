-- ===== src/Commands.antt =====
-- The commands of the program (hpav_test/hpav_test/main.c): the choice by the words of the command line,
-- and the channel that is opened and closed around a command. Printing is left out.
pub mod Choice
pub mod Balance
pub mod Closed
pub mod Handles
use tulum_utils.Base.{
  ℕ, zero, suc, ◌+◌, ◌≡◌, refl, sym, ap, ◌∙◌, ◌⊎◌, inl, inr, Bool, true, false, ◌&&◌, not, leb, ltb,
  ◌==◌, if◌then◌else◌, Option, none, some, ◌>>=◌, >>=-eq-some, List, [], ◌∷◌, ◌++◌, Bytes, bytes_eq,
  codes, length, arith,
}
use tulum_utils.Base.Int.{ℤ, pos, negsuc}
use tulum_utils.Interfaces.{If, get_interface_by_index_or_name}

-- A command takes its words; none is a fault.
abbrev pub Fct : Type 0 → Type 0
Fct W = List Bytes → W → Option (ℤ × W)

-- hpav_get_interfaces, pcap_open_live, pcap_setnonblock and pcap_close, on the state of the machine,
-- and strtoul. `C` are the handles of libpcap.
pub record Library (W C : Type 0) : Type 0 where
  pub get_interfaces : W → Option (List If) × W
  pub open_live : If → W → Option C × W
  pub set_nonblock : C → W → ℤ × W
  pub close_chan : C → W → W
  pub strtoul : Bytes → ℕ × Bytes

-- What open_channel leaves: a channel, a result that is not 0, or a result of 0 with the pointer to the
-- channel as it was, which is not set.
pub data Opened (C : Type 0) : Type 0 where
  opened : C → Opened C
  refused : ℤ → Opened C
  unset : Opened C

abbrev pub usage : {W : Type 0} → Fct W
usage argv w = some (pos 2, w)

-- The end of open_channel: what hpav_open_channel gives.
abbrev pub with_channel : {W C : Type 0} → Option C × W → Opened C × W
with_channel (none, w) = (refused (pos 1), w)
with_channel (some c, w) = (opened c, w)

-- hpav_open_channel after pcap_setnonblock: with a result other than 0 there is no channel, and the
-- handle stays open.
abbrev pub after_nonblock : {W C : Type 0} → C → ℤ × W → Option C × W
after_nonblock c (pos zero, w) = (some c, w)
after_nonblock c (pos (suc n), w) = (none, w)
after_nonblock c (negsuc n, w) = (none, w)

module _ {W C : Type 0} (L : Library W C) where
  abbrev pub after_open_live : Option C × W → Option C × W
  after_open_live (none, w) = (none, w)
  after_open_live (some c, w) = after_nonblock c (L.set_nonblock c w)

  -- hpav_open_channel, less its errors, which are only printed.
  unfoldable pub open_chan : If → W → Option C × W
  open_chan i w = after_open_live (L.open_live i w)

  abbrev pub open_found : Option If → W → Opened C × W
  open_found none w = (refused (pos 2), w)
  open_found (some iface) w = with_channel (open_chan iface w)

  -- The interfaces that are there, and the one of the given number or name.
  abbrev pub open_among : Bytes → Option (List If) × W → Opened C × W
  open_among name (none, w) = (refused (negsuc 0), w)
  open_among name (some [], w) = (unset, w)
  open_among name (some (i ∷ is), w) =
      open_found (get_interface_by_index_or_name L.strtoul (i ∷ is) name).0 w

  unfoldable pub open_channel : Bytes → W → Opened C × W
  open_channel name w = open_among name (L.get_interfaces w)

  -- Without interfaces the function gets a pointer that is not set, which faults.
  abbrev pub execute_on : Option (C → Fct W) → List Bytes → Opened C × W → Option (ℤ × W)
  execute_on fct argv (refused rv, w) = some (rv, w)
  execute_on fct argv (unset, w) = none
  execute_on none argv (opened c, w) = some (pos 0, L.close_chan c w)
  execute_on (some f) argv (opened c, w) =
      f c argv w >>= λ result. some (result.0, L.close_chan c result.1)

  unfoldable pub execute_on_channel : Bytes → Option (C → Fct W) → Fct W
  execute_on_channel name fct argv w = execute_on fct argv (open_channel name w)

  unfoldable pub list_interfaces : Fct W
  list_interfaces argv w =
      let (interfaces, w') = L.get_interfaces w in
      some (elim interfaces [ none ↦ pos 1 | some _ ↦ pos 0 ], w')

  unfoldable pub open_interface : Fct W
  open_interface (name ∷ []) w = execute_on_channel name none [] w
  open_interface argv w = usage argv w

  -- The calls for the interfaces of a list: the result is 1 after a call with another than 0.
  unfoldable pub for_interfaces : (C → Fct W) → List If → ℤ → W → Option (ℤ × W)
  for_interfaces fct [] rv w = some (rv, w)
  for_interfaces fct (i ∷ is) rv w = execute_on_channel i.name (some fct) [] w >>= λ result.
      for_interfaces fct is (elim result.0 [ pos zero ↦ rv | _ ↦ pos 1 ]) result.1
