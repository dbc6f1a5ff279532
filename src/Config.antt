-- ===== src/Config.antt =====
-- configuration.c: the configuration file, the copy of it in memory, and the functions that change
-- either.
pub mod Defs
pub mod Read
pub mod Laws
pub mod Edit
pub mod Update
pub mod Written
pub mod Elements
pub mod Channels
pub mod Tree
pub mod Runs
pub mod Closing
pub mod Flagged
pub mod Save
pub mod Saved
pub mod Paths
mod Tables
mod Tests
pub mod Flags
