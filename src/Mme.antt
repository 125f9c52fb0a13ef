-- ===== src/Mme.antt =====
-- Management messages: encoding of requests and decoding of answers (hpav_test/libhpav/hpav_mme.h,
-- hpav_mme.c and hpav_test/libhpav_mtk/hpav_mtk_mme.c), messages sent as they are, encryption.
pub mod Encode
pub mod Decode
pub mod RoundTrip
pub mod Security
pub mod Encrypted
pub mod SetKey
pub mod Copies
