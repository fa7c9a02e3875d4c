-- ===== src/Kernel/Syscall/Tests.antt =====
-- System calls at small inputs.
use yax.Base.{
  ℕ, ◌+◌, ◌-◌, ◌/◌, ◌%◌, ◌^◌, ◌<◌, ◌≤◌, ◌≡◌, ◌⊎◌, refl, true, false, some, [], ◌∷◌, arith,
  if◌then◌else◌, ◌==◌, ◌&&◌,
}
use yax.Kernel.Phys.{no_phys_pg}
use yax.Kernel.Paging.{virt}
use yax.Kernel.Pmap.{null}
use yax.Kernel.Virt.Space.{page_range}
use yax.Kernel.Syscall.{Process}
use yax.Kernel.Syscall.Ports.{Ports, sys_ioperm, sys_ioperm-bounds}

-- A process with one page, at 4096, and one connection.
abbrev proc : Process
proc = record {
  vm = record {
    paging = record {
      dir = λ i. if i == 0 then 8192 + 7 else 0;
      tables = λ i j. if (i == 0) && (j == 1) then 12288 + 7 else 0;
      phys = record {
        rootrgn = no_phys_pg;
        rootppg = no_phys_pg;
        next = λ p. no_phys_pg;
        len = λ p. 0;
      };
    };
    owners = null;
    pages = λ a. record {
      rc = 1;
      p = no_phys_pg;
      prot = 3;
      noshare = false;
      conn = 0;
      off = 0;
      start = 0;
      len = 0;
    };
    heap = [];
    conn_refs = [];
    mem = λ a. 0;
  };
  fds = some 5 ∷ [];
  conns = λ i. record { dev = 0; inst = 0; name = []; ino = i };
  mounts = [];
  cwd = 47 ∷ [];
}

-- The first page of the kernel is one of them.
first_kernel_page :
    page_range 3 (virt - 4096) ((virt + 4095) % 2 ^ 32) ≡ some ((virt - 4096) ∷ virt ∷ [])
unfolding page_range
first_kernel_page = refl

abbrev no_ports : Ports
no_ports = record { bmstart = 8191; bmend = 0; bm = λ k. 0 }

-- The keyboard's port alone.
abbrev keyboard : ℕ
keyboard = 96

sys_ioperm-bounds_example :
    let s' = sys_ioperm (λ k. 0) 96 96 true no_ports in
    (s'.bmstart ≤ 96 / 8)
    × (96 / 8 < s'.bmend ⊎ (96 % 8 ≡ 0) × (keyboard ≡ keyboard) × (s'.bmend ≡ 96 / 8))
sys_ioperm-bounds_example =
    sys_ioperm-bounds (λ k. 0) 96 96 96 true no_ports refl refl (omega arith) (omega arith)
      (omega arith)
