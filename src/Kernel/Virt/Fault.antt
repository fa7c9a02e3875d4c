-- ===== src/Kernel/Virt/Fault.antt =====
-- src/mem/virt.c: `ensure` as a whole.
use yax.Base.{◌>>=◌, ℕ, ◌%◌, ◌≡◌, ◌≢◌, Bool, true, Option, some}
use yax.Kernel.Phys.{pg_len, no_phys_pg}
use yax.Kernel.Virt.{Vm}
use yax.Kernel.Virt.Served.{Served}

-- The pages that have memory begin at multiples of the page size.
abbrev pub PagesAligned : Vm → Type 0
PagesAligned s = (a : ℕ) → (s.pages a).p ≢ no_phys_pg → (s.pages a).p % pg_len ≡ 0

-- Where the steps come to an end, the fault is served.
abbrev then_served : Option Vm → Option (Bool × Vm)
then_served o = do t ← o; some (true, t)
