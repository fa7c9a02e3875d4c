-- ===== src/Kernel/Usr/Tests.antt =====
-- Checks of pointers at small inputs.
use yax.Base.{◌+◌, ◌≡◌, refl, true, false, [], if◌then◌else◌, ◌==◌, ◌&&◌}
use yax.Kernel.Phys.{no_phys_pg}
use yax.Kernel.Pmap.{null, pmapget, pmap_get_at}
use yax.Kernel.Virt.{Vm}
use yax.Kernel.Usr.{verusrptr, verusrpage}

-- One page of the process, at 4096.
abbrev one_page : Vm
one_page = record {
  paging = record {
    dir = λ i. if i == 0 then 8192 + 7 else 0;
    tables = λ i j. if (i == 0) && (j == 1) then 12288 + 7 else 0;
    phys = record {
      rootrgn = no_phys_pg;
      rootppg = no_phys_pg;
      next = λ p. no_phys_pg;
      len = λ p. 0;
    };
  };
  owners = null;
  pages = λ a. record {
    rc = 1;
    p = no_phys_pg;
    prot = 3;
    noshare = false;
    conn = 0;
    off = 0;
    start = 0;
    len = 0;
  };
  heap = [];
  conn_refs = [];
  mem = λ a. 0;
}

-- A buffer that begins in the page and ends behind it is let through.
beyond : verusrptr 3 8191 2 3 one_page.paging ≡ true
unfolding verusrptr
beyond = refl

beyond_page : verusrpage 8192 3 one_page.paging ≡ false
unfolding verusrpage
beyond_page = refl

nobody : pmapget one_page.owners 0 ≡ 0
unfolding pmapget pmap_get_at
nobody = refl
