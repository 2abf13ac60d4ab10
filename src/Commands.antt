-- ===== src/Commands.antt =====
-- commands.cpp, class CommandProcessor.
pub mod Reply
pub mod Keys
pub mod Lists
pub mod Sets
pub mod Hashes
pub mod SortedSets
pub mod State
pub mod Table
pub mod Queue
pub mod Channels
pub mod Cluster
pub mod Info
pub mod Processor
pub mod Steps
pub mod Scripts
