-- ===== src/Translator.antt =====
-- Src/core/translator.cpp: registers to an engineering value and back.
pub mod Bytes
pub mod Scale
pub mod Codec
pub mod Bounds
pub mod BytesLaws
pub mod Unscaled
pub mod RoundTrip
mod Tests
