-- ===== src/Kernel.antt =====
-- The kernel, src/ of the repository.
pub mod Mnt
pub mod Pipe
pub mod Pmap
pub mod Sleep
pub mod Timer
pub mod Sched
pub mod Fds
pub mod Iofs
pub mod Name
pub mod Printk
pub mod Phys
pub mod Paging
pub mod Virt
pub mod Usr
pub mod Mount
pub mod Syscall
pub mod Exec
pub mod Conns
pub mod Procs
pub mod Printkfs
