-- ===== src/Kernel/Paging/Tests.antt =====
-- The page tables at small inputs.
use yax.Base.{◌+◌, ◌^◌, ◌≡◌, refl, true, some, arith, if◌then◌else◌, ◌==◌, ◌&&◌}
use yax.Kernel.Phys.{pg_len, no_phys_pg}
use yax.Kernel.Paging.{Paging, pgfind, virt}
use yax.Kernel.Paging.Find.{pgfind-FirstFit, Finds}

-- One region of four pages is free, and nothing is mapped.
abbrev fresh : Paging
fresh = record {
  dir = λ i. 0;
  tables = λ i j. 0;
  phys = record { rootrgn = 8192; rootppg = no_phys_pg; next = λ p. no_phys_pg; len = λ p. 16384 };
}

-- Its first page is the table of the first four megabytes, with one page in it.
abbrev one_page : Paging
one_page = record {
  dir = λ i. if i == 0 then 8192 + 7 else 0;
  tables = λ i j. if (i == 0) && (j == 1) then 12288 + 5 else 0;
  phys = record { rootrgn = 16384; rootppg = no_phys_pg; next = λ p. no_phys_pg; len = λ p. 8192 };
}

-- The page at 4096 is in use, so that two pages are found behind it.
finds_behind : pgfind 4 8192 true one_page ≡ some 8192
unfolding pgfind
finds_behind = refl

pgfind-FirstFit_example : Finds (pgfind (2 ^ 20 + 1) 8192 true one_page) one_page pg_len virt 8192
pgfind-FirstFit_example =
    pgfind-FirstFit (2 ^ 20 + 1) 8192 true one_page (omega arith) (omega arith)
