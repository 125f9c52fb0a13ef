-- ===== src/Channel/Open.antt =====
-- hpav_open_channel and hpav_close_channel (hpav_test/libhpav/hpav_chan.c). The handle of libpcap is
-- of a type of its own, and the calls that open it are arguments.
use tulum_utils.Base.{Bytes, Option, none, some, String, if◌then◌else◌}
use tulum_utils.Base.Int.{ℤ}
use tulum_utils.Errors.{ErrorStack, add_error, category_network, module_core}
use tulum_utils.Channel.Pcap.{is_zero}
use tulum_utils.Channel.Exchange.{hpav_error_pcap_error}

pub record Chan {ℓ} (Handle : Type ℓ) : Type ℓ where
  pub pcap_chan : Handle
  pub mac_addr : Bytes

-- `errbuf_text` is the "PCAP errbuf : %s" of the call that failed.
module _ {ℓ} {Handle : Type ℓ} (pcap_open_live : String → Option Handle)
    (pcap_setnonblock : Handle → ℤ) (errbuf_text : String) where
  unfoldable pub open_channel : String → Bytes → ErrorStack → Option (Chan Handle) × ErrorStack
  open_channel name mac_addr errors = elim (pcap_open_live name) [
    | none ↦ (
      none,
      add_error errors category_network module_core hpav_error_pcap_error
          (some "pcap_open_live failed") (some errbuf_text),
    )
    | some handle ↦
        if is_zero (pcap_setnonblock handle)
        then (some (record { pcap_chan = handle; mac_addr = mac_addr }), errors)
        else (
          none,
          add_error errors category_network module_core hpav_error_pcap_error
              (some "pcap_setnonblock failed") (some errbuf_text),
        )
  ]
