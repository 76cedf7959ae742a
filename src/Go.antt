-- ===== src/Go.antt =====
-- What the program uses of Go's standard library, after its documentation: splitting and joining
-- text, decimal integers, and the hexadecimal and base64 encodings.
pub mod Strings
pub mod Decimal
pub mod Hex
pub mod Base64
