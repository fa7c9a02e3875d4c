-- ===== src/Kernel/Syscall/Exec.antt =====
-- src/syscall.c: `sys_exec`, from the checks of its strings to the start of the program.
use yax.Base.{ℕ, ◌+◌, ◌^◌, Bool, not, none, some, ◌||◌, ltb, if◌then◌else◌, length}
use yax.Codes.{einval, o_rdonly}
use yax.Kernel.Paging.{prot_read}
use yax.Kernel.Virt.{Outside}
use yax.Kernel.Usr.{verusrstr}
use yax.Kernel.Mount.{Conn, Devs, found, error, crash, out_of_fuel, vfsopen}
use yax.Kernel.Exec.{Read, started, not_started, stopped, exec}
use yax.Kernel.Syscall.{Process, flags_of, user_str}

-- How the call ends: in the new program, at its entry and with its stack, with an error, or not at all.
pub data Execed : Type 0 where
  runs : ℕ → ℕ → Process → Execed
  fails : ℕ → Process → Execed
  stops : Execed

-- Whether a string of the process may be passed on to the program.
abbrev pub bad_args : ℕ → ℕ → Process → Bool
bad_args fuel a s =
    not (verusrstr fuel a (flags_of prot_read) s.vm) || ltb 1024 (length (user_str fuel a s.vm))

-- The room of the two strings and of the pointers to them.
abbrev pub args_room : ℕ → ℕ → ℕ → Process → ℕ
args_room fuel argv envp s =
    length (user_str fuel argv s.vm) + 1 + (length (user_str fuel envp s.vm) + 1) + 8

-- `rd` reads from the connection that was opened, which has the number `i`; `cur` is the address of the
-- process's directory.
unfoldable pub sys_exec :
    Devs → Outside → ℕ → (Conn → ℕ → ℕ → Read) → ℕ → ℕ → ℕ → ℕ → ℕ → Process → Execed
sys_exec ds out fuel rd i cur name argv envp s =
    if not (verusrstr fuel name (flags_of prot_read) s.vm)
    then fails einval s
    else if bad_args fuel argv s
    then fails einval s
    else if bad_args fuel envp s
    then fails einval s
    else elim (vfsopen ds s.mounts s.cwd (user_str fuel name s.vm) (2 ^ o_rdonly)) [
      | found c ↦ elim c [
        | none ↦ stops
        | some d ↦ elim (exec out fuel (rd d) i cur (args_room fuel argv envp s) s.vm) [
          | started entry sp vm ↦ runs entry sp (record s { vm = vm })
          | not_started e vm ↦ fails e (record s { vm = vm })
          | stopped ↦ stops
        ]
      ]
      | error e ↦ fails e s
      | crash ↦ stops
      | out_of_fuel ↦ stops
    ]
