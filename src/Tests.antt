-- ===== src/Tests.antt =====
-- Examples: each theorem at concrete inputs, and runs of the code.
pub mod Toy
pub mod Envelope
pub mod Form
pub mod Setup
mod Middleware
mod Behind
mod Fake
mod Server
mod Handlers
mod Settings
mod Return
mod Journey
