-- ===== src/Kernel/Pmap/Tests.antt =====
-- The tree at concrete pages.
use yax.Base.{◌≡◌, arith}
use yax.Kernel.Pmap.{Pmap, null, pmapget, pmapset}
use yax.Kernel.Pmap.Lookup.{pmapget-pmapset}

abbrev one_page : Pmap
unfolding pmapset
one_page = (pmapset null 4096 11).0

pmapget-pmapset_example : pmapget (pmapset one_page 20480 12).0 20483 ≡ 12
pmapget-pmapset_example = pmapget-pmapset one_page 20483 20480 12 (omega arith) (omega arith)
