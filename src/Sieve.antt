-- ===== src/Sieve.antt =====
-- The package sieve: parsing the records of the system log into events.
pub mod Engines
pub mod Event
pub mod Template
pub mod Handler
pub mod Matcher
pub mod Parser
pub mod Service
