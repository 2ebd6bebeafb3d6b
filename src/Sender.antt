-- ===== src/Sender.antt =====
-- rsyncsender: the side that has the files.
pub mod Roll
pub mod Whole
pub mod Blocks
pub mod Filters
pub mod FileList
pub mod Search
pub mod HashSearch
pub mod Window
pub mod Requests
pub mod Delta
