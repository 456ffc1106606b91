-- ===== src/Commands.antt =====
-- src/commands.cpp: the command handlers, a module for each type of value. A handler returns the
-- text that it sends and, where the source does, whether it changed the data.
pub mod Replies
pub mod Strings
pub mod Lists
pub mod Hashes
pub mod Sets
pub mod Reads
mod Tests
mod Runs
