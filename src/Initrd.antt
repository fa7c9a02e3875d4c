-- ===== src/Initrd.antt =====
-- initrd: the first process, which serves the files of the initial disk.
pub mod Tarfs
