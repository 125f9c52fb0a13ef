-- ===== src/Frame.antt =====
-- Ethernet frames and management messages: hpav_test/libhpav/hpav_api.h, hpav_mme.h, hpav_mme.c.
pub mod Layout
pub mod Header
pub mod Build
pub mod Defrag
