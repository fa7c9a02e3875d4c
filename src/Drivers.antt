-- ===== src/Drivers.antt =====
-- drivers: the file servers that run as processes of their own.
pub mod Cons
