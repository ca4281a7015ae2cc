-- ===== src/Containers.antt =====
-- ext/ruble/containers: byte arrays, sets of named flags, and callbacks.
pub mod ByteArray
pub mod NamedBitSet
pub mod Callback
