-- ===== src/Metadata.antt =====
-- device-sdk-c/src/c/edgex-rest.c: profiles and what devices say of themselves, read from JSON and
-- written to it. The JSON library (parson.c) is an interface.
pub mod Json
pub mod Pairs
pub mod Types
pub mod Arguments
pub mod Property
pub mod Commands
pub mod Profile
pub mod Service
pub mod Device
pub mod Copies
pub mod Trees
mod Samples
mod Tests
