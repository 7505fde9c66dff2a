-- ===== src/Wire.antt =====
-- src/nn/nn-network.cpp.
pub mod Codec
pub mod Chunks
pub mod Io
pub mod Config
