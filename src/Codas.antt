-- ===== src/Codas.antt =====
-- libcodas: the byte order macros, the growable vector and the reference counts.
pub mod Bit
pub mod Vector
pub mod Ref
mod Tests
