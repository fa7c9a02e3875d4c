-- ===== src/Libc.antt =====
-- libc: strings, memory moves, number parsing and the stat message.
pub mod Args
pub mod Str
pub mod Dirent
pub mod Stream
pub mod Text
pub mod Mem
pub mod Stat
pub mod Num
mod Tests
