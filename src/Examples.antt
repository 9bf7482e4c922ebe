-- ===== src/Examples.antt =====
-- Examples: each theorem at a concrete input.
mod Sectors
mod File
pub mod Cable
pub mod Wires
pub mod Requests
pub mod Volume
pub mod Stick
mod Image
mod Errors
pub mod Entries
pub mod Mount
mod Insert
mod Console
