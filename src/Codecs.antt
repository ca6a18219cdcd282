-- ===== src/Codecs.antt =====
-- internal/codecs: the encodings of scalars, arrays and ranges.
pub mod Interface
pub mod Scalars
pub mod Array
