-- ===== src/Access.antt =====
-- Access to the files of a station (hpav_test/hpav_test/test_mtk.c): the command line of
-- test_mme_mtk_vs_file_access_req, the transfer in fragments, and the checksum of a file.
pub mod Checksum
pub mod Command
pub mod Response
pub mod Transfer
pub mod Fragments
pub mod Steps
pub mod Delivery
pub mod Run
