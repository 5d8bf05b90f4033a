-- ===== src/Instances.antt =====
-- apptail: the instances of applications that are being tailed.
pub mod Started
pub mod Limit
pub mod Files
pub mod Line
pub mod Tail
pub mod Tailers
pub mod Rate
pub mod Identity
