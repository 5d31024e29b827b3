-- ===== src/Nio.antt =====
-- pkg/nio: framed messages over a byte stream.
pub mod Codec
