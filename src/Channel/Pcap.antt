-- ===== src/Channel/Pcap.antt =====
-- What the program asks of libpcap and of the clock, as a parameter: the results of the calls, in
-- the order in which they are made. `rounds n` is the call number n of pcap_dispatch, with the
-- packets for which it calls back, and the time read after it.
use tulum_utils.Base.{ℕ, zero, suc, Bool, true, false, List, String}
use tulum_utils.Base.Int.{ℤ, pos, negsuc}
use tulum_utils.Frame.Layout.{EthFrame}
use tulum_utils.Channel.Clock.{Timespec}
use tulum_utils.Channel.Callback.{Captured}

pub record Round : Type 0 where
  pub result : ℤ
  pub packets : List Captured
  pub end_time : Timespec

-- `errbuf_text r` is sprintf's "PCAP error code : %d, errbuf : %s" for the result `r`.
pub record Pcap : Type 0 where
  pub compile_rc : ℤ
  pub setfilter_rc : ℤ
  pub send_rc : EthFrame → ℤ
  pub start_time : Timespec
  pub rounds : ℕ → Round
  pub errbuf_text : ℤ → String

-- r == -1
abbrev pub is_minus_one : ℤ → Bool
is_minus_one (negsuc zero) = true
is_minus_one _ = false

-- r > 0
abbrev pub is_positive : ℤ → Bool
is_positive (pos (suc n)) = true
is_positive _ = false

-- r == 0
abbrev pub is_zero : ℤ → Bool
is_zero (pos zero) = true
is_zero _ = false

abbrev pub minus_one : ℤ
minus_one = negsuc 0
