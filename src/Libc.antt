-- ===== src/Libc.antt =====
-- What the program uses of the C library on texts: printing and scanning of numbers, tokens, and
-- files. A text is its bytes, without the zero byte at the end.
pub mod Hex
pub mod Decimal
pub mod Tokens
