-- ===== src/Tests.antt =====
-- Concrete maps and servers, the theorems at concrete inputs, and runs of the code.
pub mod OneSlot
pub mod Shelf
mod Addresses
mod Packets
mod Requests
pub mod Buckets
pub mod Engines
mod Sockets
mod Starts
pub mod Runs
mod Mains
pub mod Routers
mod Windows
mod Visitors
mod Counts
mod Told
pub mod Desk
mod Scores
mod Nights
mod Listings
