-- ===== src/Tests/Commands.antt =====
-- A machine with two interfaces: one that opens, and one whose pcap_setnonblock fails. Its state is the
-- handles that have a channel, and those that are left over.
use tulum_utils.Base.{
  ℕ, zero, suc, ◌+◌, ◌-◌, ◌≡◌, ◌≢◌, ◌<◌, refl, sym, ap, arith, none, some, [], ◌∷◌, Bytes, bytes_eq,
  codes, length,
}
use mathlib.Core.Option.{some_inj}
use tulum_utils.Base.Int.{ℤ, pos, negsuc}
use tulum_utils.Interfaces.{If, get_interface_by_index_or_name, get_interface_by_name, name_loop}
use tulum_utils.Commands.{Fct, Library, execute_on_channel, open_channel, open_chan, for_interfaces}
use tulum_utils.Commands.Choice.{Functions, main, main_fct_name_table, test_find_local_sta}
use tulum_utils.Commands.Balance.{Keeps}
use tulum_utils.Commands.Closed.{AreKept}
use tulum_utils.Commands.Handles.{Handles, IsTracked, in_use, main_lem}

abbrev interface : Bytes → If
interface name = record { name = name; description = none; mac_addr = 2 ∷ 0 ∷ 0 ∷ 0 ∷ 0 ∷ 1 ∷ [] }

abbrev State : Type 0
State = ℕ × ℕ

abbrev set_nonblock : ℕ → State → ℤ × State
set_nonblock zero w = (pos 0, w)
set_nonblock (suc n) w = (negsuc 0, (w.0 - 1, w.1 + 1))

-- The handle is 0 for "eth0" and 1 for "wlan0".
abbrev machine : Library State ℕ
machine = record {
  get_interfaces = λ w. (some (interface (codes "eth0") ∷ interface (codes "wlan0") ∷ []), w);
  open_live = λ i w. (some (length i.name - 4), (w.0 + 1, w.1));
  set_nonblock = set_nonblock;
  close_chan = λ c w. (w.0 - 1, w.1);
  strtoul = λ text. (0, text);
}

abbrev handles : Handles State
handles = record { open_handles = λ w. w.0 + w.1; left_over = λ w. w.1 }

machine-IsTracked : IsTracked machine handles
machine-IsTracked = record {
  bounded = λ w. omega arith;
  listing = λ w. (refl, refl);
  open_success = λ i w c w' e.
      let a = ap (λ p. p.1.0) e in
      let b = ap (λ p. p.1.1) e in (omega (arith, a, b), omega (arith, b));
  open_failure = λ i w w' e. cc (ap (λ p. p.0) e);
  nonblock_success = succeeds;
  nonblock_failure = fails;
  closing = λ c w h. (omega (arith, h), refl);
}
  where
    succeeds :
        (c : ℕ) (w w' : State)
        → set_nonblock c w ≡ (pos 0, w')
        → (w'.0 + w'.1 ≡ w.0 + w.1) × (w'.1 ≡ w.1)
    succeeds zero w w' e =
        let a = ap (λ p. p.1.0) e in
        let b = ap (λ p. p.1.1) e in (omega (arith, a, b), omega (arith, b))
    succeeds (suc n) w w' e = cc (ap (λ p. p.0) e)

    fails :
        (c : ℕ) (w w' : State) (r : ℤ)
        → (set_nonblock c w ≡ (r, w'))
        → r ≢ pos 0
        → w.1 < w.0 + w.1
        → (w'.0 + w'.1 ≡ w.0 + w.1) × (w'.1 ≡ suc w.1)
    fails zero w w' r e bad h = absurd (bad (sym (ap (λ p. p.0) e)))
    fails (suc n) w w' r e bad h =
        let a = ap (λ p. p.1.0) e in
        let b = ap (λ p. p.1.1) e in (omega (arith, a, b, h), omega (arith, b))

abbrev succeed : Fct State
succeed argv w = some (pos 0, w)

abbrev functions : Functions State ℕ
functions = record {
  mme = λ name c. succeed;
  secu = λ name. succeed;
  conf_on_channel = λ name c. succeed;
  conf = λ name. succeed;
  nvram_on_channel = λ name c. succeed;
  nvram = λ name. succeed;
}

Keeps-succeed : Keeps machine (in_use handles) succeed
unfolding Keeps
Keeps-succeed argv w r h = ap (in_use handles) (sym (ap (λ x. x.1) (some_inj.0 h)))

functions-AreKept : AreKept machine functions (in_use handles)
functions-AreKept = record {
  mme = λ name c. Keeps-succeed;
  secu = λ name. Keeps-succeed;
  conf_on_channel = λ name c. Keeps-succeed;
  conf = λ name. Keeps-succeed;
  nvram_on_channel = λ name c. Keeps-succeed;
  nvram = λ name. Keeps-succeed;
}

-- With two handles open, and the channel of "wlan0" refused, the result is 1, and one handle is left over.
abbrev outcome : ℕ × State
outcome = (1, (2, 1))

main_example :
    handles.open_handles outcome.1 + 0 ≡ handles.open_handles (2, 0) + handles.left_over outcome.1
unfolding main main_fct_name_table test_find_local_sta for_interfaces execute_on_channel
    open_channel open_chan bytes_eq get_interface_by_index_or_name get_interface_by_name name_loop
main_example =
    main_lem machine handles machine-IsTracked functions functions-AreKept
      (codes "find_local_sta" ∷ []) (2, 0) outcome refl
