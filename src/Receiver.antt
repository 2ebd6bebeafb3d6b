-- ===== src/Receiver.antt =====
-- rsyncreceiver: the side that gets the files.
pub mod Opts
pub mod FileList
pub mod Data
pub mod Loop
pub mod Generator
pub mod Client
