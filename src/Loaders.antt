-- ===== src/Loaders.antt =====
-- src/loaders: the readers of binary files.
pub mod Stream
pub mod Nyx
pub mod Ngt
pub mod Ntt
pub mod Nss
pub mod Ngg
