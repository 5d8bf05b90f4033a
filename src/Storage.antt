-- ===== src/Storage.antt =====
-- apptail/storage: the tracked data, the interface through which the tracker keeps it, and the file
-- that implements the interface.
mod Data
pub mod FileHandler
pub mod Fake
pub use Data.*
