-- ===== src/Tokenizer.antt =====
-- src/tokenizer.hpp and src/tokenizer.cpp. Texts are lists of bytes without the terminating zero.
pub mod Decode
pub mod Encode
pub mod Stops
pub mod Sampler
pub mod Chat
