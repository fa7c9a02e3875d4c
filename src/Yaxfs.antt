-- ===== src/Yaxfs.antt =====
-- libyaxfs: the library that file servers are written with.
pub mod Fid
pub mod File
pub mod Dofunc
pub mod Serve
mod Tests
