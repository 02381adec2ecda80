-- ===== src/Go.antt =====
-- What the source uses of Go's standard library.
pub mod Text
pub mod Base64
pub mod Time
pub mod Hex
pub mod Url
pub mod Values
pub mod Http
