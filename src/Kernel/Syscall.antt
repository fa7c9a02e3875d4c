-- ===== src/Kernel/Syscall.antt =====
-- src/syscall.c: the system calls on memory, descriptors, names and ports, each a check of its
-- arguments and a call into the kernel. A connection is a number, as in the list of descriptors; what
-- it stands for is in the process's state here. NDEBUG removes the printed lines, but for the end of a
-- process.
pub mod Ports
pub mod Exec
pub mod Exits
pub mod Safe
mod Tests
use yax.Base.{
  ◌++◌, ℕ, zero, suc, ◌+◌, ◌-◌, ◌*◌, ◌/◌, ◌%◌, ◌^◌, Bool, true, false, not, Option, none, some,
  List, [], ◌∷◌, ◌&&◌, ◌||◌, ltb, leb, ◌==◌, if◌then◌else◌, has_bit, ◌>>=◌,
}
use yax.Codas.Bit.{Bytes}
use yax.Codes.{einval, ebadf, efault, eio, enotsup, wants_ptr, wants_wr, wants_ptr2, wants_wr2}
use yax.Libc.Str.{strlcpy}
use yax.Kernel.Phys.{pg_len}
use yax.Kernel.Paging.{virt, prot_read, prot_write}
use yax.Kernel.Virt.{Vm, Outside}
use yax.Kernel.Virt.Space.{vpgumap, vpgpmap, vpgfmap, vpgunmap, map_fixed}
use yax.Kernel.Usr.{verusrptr, verusrstr, user_byte}
use yax.Kernel.Fds.{FdList, fdalloc, fddealloc, fd2conn, fdset}
use yax.Kernel.Mount.{Conn, Devs, Mount, Found, found, error, crash, out_of_fuel, vfsopen, conndup}
use yax.Kernel.Mount.Table.{Mounted, mounted, not_mounted, stuck, vfsmount, vfschdir}

pub record Process : Type 0 where
  pub vm : Vm
  pub fds : FdList
  pub conns : ℕ → Conn
  pub mounts : List Mount
  pub cwd : Bytes

-- What a call returns: a value, or the number of an error that is returned negated.
pub data Ret : Type 0 where
  ret : ℕ → Ret
  err : ℕ → Ret

abbrev pub flags_of : ℕ → ℕ
flags_of k = 2 ^ k

abbrev pub map_anonymous : ℕ
map_anonymous = 1

abbrev pub map_phys : ℕ
map_phys = 3

abbrev pub map_max : ℕ
map_max = 31

abbrev pub prot_max : ℕ
prot_max = 7

abbrev pub rf_max : ℕ
rf_max = 63

-- `RFPROC`
abbrev pub rf_proc : ℕ
rf_proc = 0

-- The string at an address that was checked.
unfoldable pub user_str : ℕ → ℕ → Vm → Bytes
user_str zero a s = []
user_str (suc k) a s =
    let rest = user_str k ((a + 1) % 2 ^ 32) s in
    let b = user_byte s a in if b == 0 then [] else b ∷ rest

-- The checks before a new process is made; `pid` is what `procrfork` returns.
unfoldable pub sys_rfork : ℕ → ℕ → Ret
sys_rfork flags pid =
    if ltb rf_max flags
    then err einval
    else if not (has_bit flags rf_proc)
    then err enotsup
    else ret pid

-- Whether the place of a map may be asked for.
abbrev pub bad_place : ℕ → ℕ → ℕ → Bool
bad_place addr len flags =
    has_bit flags map_fixed && (not (addr % pg_len == 0) || ltb virt ((addr + len) % 2 ^ 32))

-- The connection of a file is the descriptor's number here.
unfoldable pub sys_mmap : Outside → ℕ → ℕ → ℕ → ℕ → ℕ → ℕ → ℕ → Process → Option (Ret × Process)
sys_mmap out fuel addr len prot flags fd off s =
    let anonymous = has_bit flags map_anonymous in
    let phys = has_bit flags map_phys in
    if ltb map_max flags || (ltb prot_max prot || bad_place addr len flags)
    then some (err einval, s)
    else if anonymous
    then (do
      (p, vm) ← vpgumap out fuel addr len prot flags s.vm
      some (ret p, record s { vm = vm }))
    else if phys
    then (do
      (p, vm) ← vpgpmap fuel addr len prot flags off s.vm
      some (ret p, record s { vm = vm }))
    else elim (fd2conn s.fds fd) [
      | none ↦ some (err einval, s)
      | some c ↦ do
        (p, vm) ← vpgfmap out fuel addr len prot flags c off s.vm
        some (ret p, record s { vm = vm })
    ]

unfoldable pub sys_munmap : ℕ → ℕ → ℕ → Process → Option (Ret × Process)
sys_munmap fuel addr len s =
    if not (addr % pg_len == 0) || ((len == 0) || ltb virt ((addr + len) % 2 ^ 32))
    then some (err einval, s)
    else (do vm ← vpgunmap fuel addr len s.vm; some (ret 0, record s { vm = vm }))

abbrev pub with_conn : ℕ → Conn → (ℕ → Conn) → ℕ → Conn
with_conn i c cs j = if j == i then c else cs j

-- A new connection `i` gets the lowest free number.
abbrev pub add_conn : ℕ → Conn → Process → ℕ × Process
add_conn i c s =
    let (fd, fds) = fdalloc i s.fds in (fd, record s { fds = fds; conns = with_conn i c s.conns })

-- `i` is the number of the connection that is opened; `none` is a crash.
unfoldable pub sys_open : Devs → ℕ → ℕ → ℕ → ℕ → Process → Option (Ret × Process)
sys_open ds fuel i name fl s =
    if not (verusrstr fuel name (flags_of prot_read) s.vm)
    then some (err einval, s)
    else elim (vfsopen ds s.mounts s.cwd (user_str fuel name s.vm) fl) [
      | found c ↦ elim c [
        | none ↦ none
        | some d ↦ (let (fd, s') = add_conn i d s in some (ret fd, s'))
      ]
      | error e ↦ some (err e, s)
      | crash ↦ none
      | out_of_fuel ↦ none
    ]

-- A message to a connection: refused, or passed on with its arguments as they are.
pub data Func : Type 0 where
  denied : ℕ → Func
  passed : ℕ → Func

abbrev pub prot_for : Bool → ℕ
prot_for wr = if wr then flags_of prot_write else flags_of prot_read

unfoldable pub sys_func : ℕ → ℕ → ℕ → ℕ → ℕ → ℕ → ℕ → Process → Func
sys_func fuel fd fn buf len buf2 len2 s =
    let ok1 = verusrptr fuel buf len (prot_for (has_bit fn wants_wr)) s.vm.paging in
    let ok2 = verusrptr fuel buf2 len2 (prot_for (has_bit fn wants_wr2)) s.vm.paging in
    if has_bit fn wants_ptr && not ok1
    then denied einval
    else if has_bit fn wants_ptr2 && not ok2
    then denied einval
    else elim (fd2conn s.fds fd) [ none ↦ denied einval | some c ↦ passed c ]

unfoldable pub sys_close : ℕ → Process → Process × List ℕ
sys_close fd s = let (fds, gone) = fddealloc fd s.fds in (record s { fds = fds }, gone)

-- `to` is a 32-bit word, negative where its highest bit is set; `i` is the number of the copy. Where the
-- device has no copy, the kernel crashes in `conndup`, before the test for it.
unfoldable pub sys_dup2 : Devs → ℕ → ℕ → ℕ → Process → Option (Ret × Process)
sys_dup2 ds i from to s = elim (fd2conn s.fds from) [
  | none ↦ some (err ebadf, s)
  | some c ↦ elim (conndup ds (s.conns c) (s.conns c).name) [
    | none ↦ none
    | some d ↦
        if leb (2 ^ 31) to
        then (let (fd, s') = add_conn i d s in some (ret fd, s'))
        else (let (fd, fds) = fdset to i s.fds in
            some (ret fd, record s { fds = fds; conns = with_conn i d s.conns }))
  ]
]

unfoldable pub sys_chdir : ℕ → ℕ → Process → Option Process
sys_chdir fuel name s =
    if not (verusrstr fuel name (flags_of prot_read) s.vm)
    then some s
    else (do cwd ← vfschdir s.cwd (user_str fuel name s.vm); some (record s { cwd = cwd }))

unfoldable pub sys_mount : Devs → ℕ → ℕ → ℕ → ℕ → Process → Option (Ret × Process)
sys_mount ds fuel from to fl s =
    if not (verusrstr fuel from (flags_of prot_read) s.vm)
    then some (err einval, s)
    else elim (fd2conn s.fds to) [
      | none ↦ some (err einval, s)
      | some c ↦ elim (vfsmount ds s.mounts s.cwd (user_str fuel from s.vm) (s.conns c) fl) [
        | mounted ms ↦ some (ret 0, record s { mounts = ms })
        | not_mounted e ↦ some (err e, s)
        | stuck ↦ none
      ]
    ]

-- The new mount's ends `root` and `master`, where there are any: the number of the root, and of the
-- master's, which goes to the process's memory.
unfoldable pub sys_mkmnt : ℕ → ℕ → Option (ℕ × ℕ) → Process → (Ret × Option ℕ) × Process
sys_mkmnt fuel master ends s =
    if not (verusrptr fuel master 4 (flags_of prot_write) s.vm.paging)
    then ((err efault, none), s)
    else elim ends [
      | none ↦ ((err eio, none), s)
      | some (root, m) ↦
          let (mfd, fds1) = fdalloc m s.fds in
          let (fd, fds2) = fdalloc root fds1 in ((ret fd, some mfd), record s { fds = fds2 })
    ]

-- The two ends of a pipe, and the numbers that are written to the process's memory.
unfoldable pub sys_pipe : ℕ → ℕ → ℕ → ℕ → Process → (Ret × Option (ℕ × ℕ)) × Process
sys_pipe fuel p p0 p1 s =
    if not (verusrptr fuel p 8 (flags_of prot_write) s.vm.paging)
    then ((err einval, none), s)
    else (let (fd0, fds1) = fdalloc p0 s.fds in
        let (fd1, fds2) = fdalloc p1 fds1 in ((ret 0, some (fd0, fd1)), record s { fds = fds2 }))

-- The bytes that go to the buffer, and the value; `none` where the name has no end.
unfoldable pub sys_fd2path : ℕ → ℕ → ℕ → ℕ → Process → Option (Ret × Bytes)
sys_fd2path fuel fd buf len s = elim (fd2conn s.fds fd) [
  | none ↦ some (err einval, [])
  | some c ↦
      if not (verusrptr fuel buf len (flags_of prot_write) s.vm.paging)
      then some (err einval, [])
      else (do (bytes, n) ← strlcpy ((s.conns c).name ++ (0 ∷ [])) len; some (ret n, bytes))
]

-- The number of the new connection for printing, if there is one; -1 else.
unfoldable pub sys_getprintk : Option ℕ → Process → Ret × Process
sys_getprintk none s = (err 1, s)
sys_getprintk (some c) s = let (fd, fds) = fdalloc c s.fds in (ret fd, record s { fds = fds })
