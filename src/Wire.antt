-- ===== src/Wire.antt =====
-- packages/wire: the payload codec and base45.
pub mod Base45
pub mod Codec
pub mod Render
pub mod Scan
