-- ===== src/Channel.antt =====
-- Sending and receiving over libpcap: hpav_test/libhpav/hpav_chan.c, the receive callback and the
-- exchange of hpav_mme.h, the raw send and the sniffer of hpav_mme.c, and the exchanges that
-- hpav_test/libhpav_mtk/hpav_mtk_mme.c writes out.
pub mod Clock
pub mod Callback
pub mod Run
pub mod Pcap
pub mod Exchange
pub mod Kinds
pub mod Sniff
pub mod Open
pub mod Raw
