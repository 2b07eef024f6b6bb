-- ===== src/Bloom.antt =====
-- 09-unsafe-ffi: the Bloom filter and its C interface.
pub mod Hash
pub mod Filter
pub mod Ffi
mod Tests
