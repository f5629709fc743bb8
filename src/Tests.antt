-- ===== src/Tests.antt =====
-- The theorems of the other modules at concrete inputs.
pub mod Scalars
pub mod State
pub mod Decoder
pub mod Loop
pub mod Programs
pub mod Loader
pub mod Startup
pub mod Sessions
pub mod Items
