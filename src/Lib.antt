-- ===== src/Lib.antt =====
-- Verification of yax, a small preemptive 32-bit x86 microkernel with its C library (libc), its
-- support library (libcodas) and the library that its file servers are written with (libyaxfs).
--
-- A process calls a function of an open connection (src/fs/conn.c). On a mounted connection the call
-- becomes a message (src/fs/mnt.c) that a server process reads with `recv` and answers with `answer`
-- (libyaxfs/serve.c), after `dofunc` (libyaxfs/dofunc.c) has dispatched it over the server's fids
-- (fid.c) and files (file.c). The kernel's own connections are pipes (src/fs/pipe.c) and devices. A
-- call that has to wait parks its process on a semaphore, which takes it out of the run queue
-- (src/multitask.c), and timers wake sleepers. A page of user memory that is shared with a server is
-- found by its physical address (src/mem/user.c). A process's memory is its page tables
-- (src/mem/pgdir.c), which src/mem/virt.c fills at its first access to a page and shares between
-- processes until one writes. The system calls (src/syscall.c) check a process's pointers
-- (src/mem/usrboundary.c) and call the parts behind them: the descriptors (src/fs/fds.c), the mounts
-- (src/fs/name.c), the memory, and the loading of programs (src/exec.c).
--
-- The modules and the code that they model:
--   Base                shared helpers: the library's names, Boolean tests, lists and integers
--   Codes               src/include/yax: errorcodes.h, openflags.h, fn.h (flags as bit numbers)
--   Codas.Bit           libcodas/include/codas/bit.h, GBIT and PBIT as gbit and pbit
--   Codas.Vector        libcodas/vector.c, codas/vector.h, each vecxyz as vec_xyz
--   Codas.Ref           libcodas/ref.c
--   Libc.Str            libc/string, by the names of the functions; Compare and Copy prove
--   Libc.Mem            libc/string/memmove.c
--   Libc.Stat           libc/stat.c, YAXstat2msg and YAXmsg2stat
--   Yaxfs.Fid           libyaxfs/fid.c
--   Yaxfs.File          libyaxfs/file.c; Lookup proves
--   Yaxfs.Dofunc        libyaxfs/dofunc.c, one function for each case; Access proves
--   Yaxfs.Serve         libyaxfs/serve.c
--   Kernel.Mnt          src/fs/mnt.c: sfn and cfn; Protocol, Calls and Copies prove, together with
--                       Yaxfs.Serve; Client has every message to the server, and cdel and cdup
--   Kernel.Pipe         src/fs/pipe.c, with Messages for fn; Fifo proves
--   Kernel.Pmap         src/mem/user.c; Lookup proves
--   Kernel.Sleep        src/multitask.c, the list of sleepers; Wakes proves
--   Kernel.Timer        src/multitask.c, timer_handler; Left proves
--   Kernel.Sched        src/multitask.c, run queue and semaphores; Ring and Queue prove, Turns,
--                       Waits and Signals say how each operation leaves a sound state
--   Kernel.Phys         src/mem/phys.c; Free proves
--   Kernel.Fds          src/fs/fds.c; Slots proves
--   Kernel.Procs        src/multitask.c, the processes by their numbers; Pids proves, and Steps,
--                       for all operations as the steps of one machine
--   Kernel.Paging       src/mem/pgdir.c; Lookup and Find prove
--   Kernel.Virt         src/mem/virt.c and the pages of src/mem/user.c: Space has the maps of ranges,
--                       Ensure the page faults and Copy the new address spaces; Served, Access, Fault
--                       and Fork prove
--   Kernel.Usr          src/mem/usrboundary.c; Check and Pin prove
--   Kernel.Mount        src/fs/name.c, src/fs/conn.c: the mounts and the search for a path; Table has
--                       the changes of the mounts, Search and Root prove
--   Kernel.Exec         src/exec.c, with Image for a program in memory; Segments proves
--   Kernel.Conns        src/fs/conn.c, the calls through a connection
--   Kernel.Syscall      src/syscall.c: Ports has sys_ioperm and proves, Exec has sys_exec,
--                       Exits the end of a process, Safe proves
--   Kernel.Printkfs     src/fs/printkfs.c
--   Kernel.Iofs         src/fs/iofs.c; Names proves
--   Kernel.Name         src/fs/name.c, nameclean; Resolve proves
--   Kernel.Printk       src/printk.c; Parse proves, together with Libc.Num
--   Libc.Num            libc/strtoll.c, libc/ctype; Decimal proves
--   Libc.Text           libc/string, the functions that build strings, and libc/exit.c
--   Libc.Args           libc/execve.c and libc/_YALCmain.c; Roundtrip proves
--   Libc.Dirent         libc/dirent
--   Libc.Stream         libc/stream, the buffers; Reads and Writes prove
--   Drivers.Cons        drivers/cons.c; Screen proves
--   Initrd.Tarfs        initrd/tarfs.c; Numbers, Paths and Contents prove
-- The concrete examples stand in the modules named Tests.
--
-- Numbers. Words are naturals, and wrap-around is written out where the code can reach it (lengths in
-- `strlcpy` and in the message writer, addresses in Kernel.Phys). A byte list stands for memory from a pointer to the end of its object,
--  and `none` for a read past that end. A reference count, a semaphore's value and a file
-- offset stay inside their types.
--
-- Concurrency. A function that runs with interrupts off, or between two waits of its own, is one step.
-- Where a caller parks, the result says so (`none`, `blocked`, `switches`), with the state it leaves.
-- In Kernel.Procs.Steps a wait and its switch are one step, so that no interrupt comes between them; the
-- source ends its critical section there.
--
-- Fuel. `findprev` is a loop over a circular list and takes fuel; the theorems ask for more than the
-- length of the ring, which is enough. The write loop of a pipe takes three rounds, which are enough:
-- the first fills the buffer or writes all, the second parks or writes nothing, and the third ends
-- the loop. `dirwalk` has two rounds more than the directory has entries, since it looks at one slot
-- more, and `dirreadents` three. `semsignal` takes fuel for its rounds, one for each waiter and one
-- for the test that ends it. `nameclean` has a round for each character, and its theorem shows that
-- they are enough. The search for a path has a round for each character and each mount, the search
-- for free pages one for each page of the address space, and the loading of a program one for each
-- header; theorems show that these are enough. A range of pages is gone through on fuel that the
-- caller gives, and `none` is the result where it is not enough: a range in the last page of the address
-- space has no end. A search of the run queue that has not ended says so (`spins`, or `none`). `ppgreserve` takes a round for each free region or page and one more.
--
-- What is not modelled. Assembly, boot and interrupt code, port and VGA input and output are hardware.
-- Left out are the stacks, page directories and port bitmaps that `procswitchgut` exchanges, locks, the
-- debugging output, the translation cache, and the bytes on a new program's stack. A write through the
-- kernel's window to a page that is not mapped is a write to that page. The disk driver, and vfprintf and
-- liballoc, which come from other projects, are not modelled. `malloc`, `free` and `realloc` (liballoc, from another project) are
-- taken to succeed: what they return is an argument. The callbacks of a file server are parameters of
-- Yaxfs.Dofunc, and the addresses that `putusrptr` gives are arguments of Kernel.Mnt.
pub mod Base
pub mod Codas
pub mod Libc
pub mod Codes
pub mod Yaxfs
pub mod Kernel
pub mod Drivers
pub mod Initrd
