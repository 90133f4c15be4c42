-- ===== src/Codec.antt =====
-- The binary encodings of values: server/types.go.
pub mod Numeric
pub mod Decode
pub mod Digits
pub mod Powers
pub mod Words
pub mod Buffer
pub mod RoundTrip
pub mod Inputs
pub mod Texts
pub mod TextRoundTrip
pub mod Examples
