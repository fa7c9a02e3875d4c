-- ===== src/Kernel/Syscall/Exits.antt =====
-- src/syscall.c: the end of a process, and the calls that hand their arguments on. `sys_exits` writes
-- its output through the functions themselves, which NDEBUG does not remove.
use yax.Base.{ℕ, not, List, [], ◌∷◌, ◌++◌, ◌&&◌, ◌==◌, if◌then◌else◌}
use yax.Base.Int.{ℤ}
use yax.Codas.Bit.{Bytes}
use yax.Kernel.Paging.{prot_read}
use yax.Kernel.Printk.{iprintk, printk}
use yax.Kernel.Procs.{Procs, proconnotify}
use yax.Kernel.Sleep.{Sleep}
use yax.Kernel.Syscall.{flags_of, user_str}
use yax.Kernel.Timer.{procsleep, procalarm}
use yax.Kernel.Usr.{verusrstr}
use yax.Kernel.Virt.{Vm}

-- `: exits("`, `")` with the end of the line, and `<invalid>`.
abbrev exits_text : Bytes
exits_text = 58 ∷ 32 ∷ 101 ∷ 120 ∷ 105 ∷ 116 ∷ 115 ∷ 40 ∷ 34 ∷ []

abbrev end_text : Bytes
end_text = 34 ∷ 41 ∷ 10 ∷ []

abbrev invalid_text : Bytes
invalid_text = 60 ∷ 105 ∷ 110 ∷ 118 ∷ 97 ∷ 108 ∷ 105 ∷ 100 ∷ 62 ∷ []

-- What the call prints, and the string that it hands to `procexits`.
pub record Exits : Type 0 where
  pub printed : Bytes
  pub note : Bytes

unfoldable pub sys_exits : ℕ → ℤ → ℕ → Vm → Exits
sys_exits fuel pid a s =
    let text = (if a == 0 then [] else user_str fuel a s) in
    if not (a == 0) && not (verusrstr fuel a (flags_of prot_read) s)
    then record {
      printed = iprintk pid ++ (printk exits_text ++ printk (invalid_text ++ end_text));
      note = [];
    }
    else record {
      printed = iprintk pid ++ (printk exits_text ++ (printk text ++ printk end_text));
      note = text;
    }

-- The old handler, and the processes with the new one.
unfoldable pub sys_notify : ℕ → Procs → ℕ × Procs
unfolding proconnotify
sys_notify f s = proconnotify f s

-- The list of sleepers after the call; `i` is the semaphore that the sleeper waits for.
unfoldable pub sys_sleep : ℕ → ℕ → List Sleep → List Sleep
unfolding procsleep
sys_sleep time i q = procsleep time i q

unfoldable pub sys_alarm : ℕ → Procs → List Sleep → List Sleep
unfolding procalarm
sys_alarm time s q = procalarm time s q
