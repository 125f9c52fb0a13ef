-- ===== src/Nvram.antt =====
-- The memory image of a station (hpav_test/hpav_test/test_nvram.c and test_nvram.h): changing and printing
-- the address in an image, and the request that writes one to a station.
pub mod Image
pub mod Write
