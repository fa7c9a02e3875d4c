-- ===== src/Kernel/Usr/Pin.antt =====
-- The references that `getusrptr` takes.
use yax.Base.{some, ℕ, ◌+◌, ◌%◌, ◌^◌, ◌≡◌, refl, false, List, [], ◌∷◌, arith, has_bit, map}
use yax.Codas.Ref.{mkref}
use yax.Kernel.Phys.{pg_len}
use yax.Kernel.Pmap.{pmapget}
use yax.Kernel.Paging.{addr_of, dir_index, table_index, pg_notmapped}
use yax.Kernel.Virt.{Vm}
use yax.Kernel.Virt.Space.{page_range}
use yax.Kernel.Usr.{PgList, get_pages, getusrptr}

get_pages-lem :
    (is : List ℕ) (s : Vm)
    → pmapget s.owners 0 ≡ 0
    → get_pages is s ≡ (map (λ i. addr_of (s.paging.tables (dir_index i) (table_index i))) is, s)
unfolding get_pages
get_pages-lem [] s z = refl
get_pages-lem (i ∷ is) s z =
    let masked : has_bit (addr_of (s.paging.tables (dir_index i) (table_index i))) pg_notmapped
        ≡ false =
      ground arith in
    rw masked (rw z (rw (get_pages-lem is s z) refl))

-- The list of a buffer, whose pages come to an end within the fuel, holds the address of each of them, but
-- where the page at 0 has no owner no page gets a reference, whatever the entries are: the state is the
-- one of before.
pub getusrptr-pages :
    (fuel p len : ℕ) (is : List ℕ) (s : Vm)
    → pmapget s.owners 0 ≡ 0
    → page_range fuel p ((p + len) % 2 ^ 32) ≡ some is
    → (pl : PgList) × (getusrptr fuel p len s ≡ some (pl, s))
      × (pl.e ≡ map (λ i. addr_of (s.paging.tables (dir_index i) (table_index i))) is)
unfolding getusrptr
getusrptr-pages fuel p len is s z e =
    let pl : PgList = record {
      rc = mkref;
      len = len;
      delta = p % pg_len;
      e = map (λ i. addr_of (s.paging.tables (dir_index i) (table_index i))) is;
    } in
    (pl, rw e (rw (get_pages-lem is s z) refl), refl)
