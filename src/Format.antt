-- ===== src/Format.antt =====
-- src/format.rs: the envelope around a payload. Encode writes it, Decode reads and validates it,
-- Stream writes it from a channel, Load reads a file.
pub mod Crc
pub mod Reader
pub mod Encode
pub mod Decode
pub mod Envelope
pub mod RoundTrip
pub mod Agreement
pub mod Truncation
pub mod Stream
pub mod Load
pub mod Tests
