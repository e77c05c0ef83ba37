-- ===== src/Tests.antt =====
-- Concrete inputs, runs of the model on them, and the theorems at such inputs.
pub mod Control
pub mod Rooms
pub mod Sessions
pub mod Service
pub mod Guests
pub mod Layout
pub mod Packet
pub mod Tables
pub mod Archive
pub mod Delivery
pub mod Recordings
pub mod Maintenance
pub mod Guards
pub mod Deletion
