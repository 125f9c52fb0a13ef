-- ===== src/Utils.antt =====
-- Helpers of hpav_test/libhpav/hpav_utils.c: conversions of texts, the origin and the names of a
-- message, tables of values, and the run-length code of tone maps.
pub mod Origin
pub mod Rle
pub mod Text
pub mod Names
