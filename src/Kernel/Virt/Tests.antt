-- ===== src/Kernel/Virt/Tests.antt =====
-- Faults and forks at small inputs.
use yax.Base.{
  ℕ, zero, suc, ◌+◌, ◌%◌, ◌≡◌, ◌≢◌, refl, true, false, none, some, [], arith, if◌then◌else◌, ◌==◌,
  ◌&&◌, has_bit,
}
use yax.Kernel.Phys.{Phys, store, no_phys_pg, ppgalloc}
use yax.Kernel.Pmap.{set_refs, pmap_get_at, null, pmapget, pmapset}
use yax.Kernel.Paging.{pg_writeable, addr_of, pg_present}
use yax.Kernel.Paging.Lookup.{entry, AlignedAlloc}
use yax.Kernel.Virt.{pagemk, set_owner, Vm, Outside}
use yax.Kernel.Virt.Ensure.{copy_on_write}
use yax.Kernel.Virt.Served.{Served, copy_on_write-bytes}
use yax.Kernel.Virt.Copy.{Child, vpgcopy, vpgnew, copy_tables, copy_table, copy_entries}
use yax.Kernel.Virt.Fork.{copy_entries-Copied, Forked, vpgcopy-Forked}

-- One page, shared until it is written, and two free ones.
abbrev shared : Vm
shared = record {
  paging = record {
    dir = λ i. if i == 0 then 8192 + 7 else 0;
    tables = λ i j. if (i == 0) && (j == 1) then 12288 + 1024 + 5 else 0;
    phys = record {
      rootrgn = 16384;
      rootppg = no_phys_pg;
      next = λ p. no_phys_pg;
      len = λ p. 8192;
    };
  };
  owners = null;
  pages = λ a. record {
    rc = 1;
    p = no_phys_pg;
    prot = 3;
    noshare = false;
    conn = 0;
    off = 0;
    start = 0;
    len = 0;
  };
  heap = [];
  conn_refs = [];
  mem = λ a. a % 256;
}

abbrev outside : Outside
outside = record { malloc = λ h. 65536; mpread = λ c n o k. none; kernel_pd = λ i. 0 }

shared-AlignedAlloc : AlignedAlloc shared.paging.phys
unfolding ppgalloc
shared-AlignedAlloc p m' e = ground arith

written : (s' : Vm) × (copy_on_write outside 4096 (entry shared.paging 4096) shared ≡ some s')
unfolding copy_on_write ppgalloc pagemk set_owner pmapset set_refs pmapget pmap_get_at
written = (_, refl)

copy_on_write-bytes_example :
    let old = addr_of (entry shared.paging 4096) in
    let new = addr_of (entry (written.0).paging 4096) in
    ((m : Phys) × (ppgalloc shared.paging.phys ≡ some (new, m)))
    × (has_bit (entry (written.0).paging 4096) pg_writeable ≡ true)
    × ((written.0).mem (new + 7) ≡ shared.mem (old + 7))
    × (new ≢ old → (written.0).mem (old + 7) ≡ shared.mem (old + 7))
copy_on_write-bytes_example =
    copy_on_write-bytes outside 4096 7 shared written.0 shared-AlignedAlloc refl refl written.1
      (omega arith)

-- Where only the first table is there, the others change nothing.
copy_table-absent :
    (i : ℕ) (c : Child) (s : Vm)
    → has_bit (s.paging.dir i) pg_present ≡ false
    → copy_table false i (c, s) ≡ some (c, s)
unfolding copy_table
copy_table-absent i c s h = rw h refl

copy_tables-first :
    (n : ℕ) (cs : Child × Vm) (c : Child) (s : Vm)
    → copy_table false 0 cs ≡ some (c, s)
    → ((k : ℕ) → has_bit (s.paging.dir (suc k)) pg_present ≡ false)
    → copy_tables false (suc n) cs ≡ some (c, s)
unfolding copy_tables
copy_tables-first zero cs c s e h = e
copy_tables-first (suc n) cs c s e h =
    rw (copy_tables-first n cs c s e h, copy_tables) (copy_table-absent (suc n) c s (h n))

abbrev begun : Child × Vm
begun = (
  record { at = 16384; dir = store outside.kernel_pd 1023 16899; tables = λ i j. 0 },
  record shared {
    paging = record shared.paging {
      phys = record {
        rootrgn = 20480;
        rootppg = no_phys_pg;
        next = store shared.paging.phys.next 20480 no_phys_pg;
        len = store shared.paging.phys.len 20480 4096;
      };
    };
  },
)

started : vpgnew outside shared ≡ some begun
unfolding vpgnew ppgalloc
started = refl

abbrev first_table : Child × Vm
first_table = (
  record (begun.0) {
    dir = store (begun.0).dir 0 (8199 % 4096 + 20480);
    tables = λ k l. if k == 0 then 0 else 0;
  },
  record (begun.1) {
    paging = record (begun.1).paging {
      phys = record (begun.1).paging.phys { rootrgn = no_phys_pg };
    };
  },
)

first_copied :
    (c : Child) × (s : Vm) × (copy_table false 0 begun ≡ some (c, s))
    × (s.paging.dir ≡ shared.paging.dir)
unfolding copy_table ppgalloc
first_copied =
    let r = copy_entries false 0 1024 first_table in
    (r.0, r.1, refl, (copy_entries-Copied false 0 1024 first_table.0 first_table.1).dir)

others_absent : (k : ℕ) → has_bit ((first_copied.1).paging.dir (suc k)) pg_present ≡ false
others_absent k = rw first_copied.3 (ground arith)

copied : vpgcopy outside false shared ≡ some (first_copied.0, first_copied.1)
unfolding vpgcopy
copied =
    rw (started, vpgcopy)
      (copy_tables-first 767 begun first_copied.0 first_copied.1 first_copied.2 others_absent)

vpgcopy-Forked_example :
    Forked false
      (shared.paging.tables 0 1)
      ((first_copied.1).paging.tables 0 1)
      ((first_copied.0).tables 0 1)
vpgcopy-Forked_example =
    vpgcopy-Forked outside false 0 1 first_copied.0 shared first_copied.1 copied (omega arith)
      (omega arith) refl
