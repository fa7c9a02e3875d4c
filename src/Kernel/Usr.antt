-- ===== src/Kernel/Usr.antt =====
-- src/mem/usrboundary.c: the checks of a process's pointers, and lists of its pages. Addresses wrap;
-- the loops are on fuel. The room of a list in the heap is left out.
pub mod Check
pub mod Pin
mod Tests
use yax.Base.{
  ℕ, zero, suc, ◌+◌, ◌-◌, ◌*◌, ◌/◌, ◌%◌, ◌^◌, Bool, true, false, not, Option, none, some, List, [],
  ◌∷◌, ◌&&◌, ◌||◌, ltb, leb, ◌==◌, if◌then◌else◌, has_bit, ◌>>=◌, length,
}
use yax.Codas.Ref.{mkref, ref, unref, alive, freed, fault}
use yax.Kernel.Phys.{pg_len}
use yax.Kernel.Pmap.{pmapget}
use yax.Kernel.Paging.{
  Paging, pgmap, pgunmap, pgfind, pgemk, dir_index, table_index, addr_of, pg_present, pg_user,
  pg_writeable, pg_notmapped, prot_write,
}
use yax.Kernel.Virt.{Vm, ref_page, unref_page}
use yax.Kernel.Virt.Space.{page_range, for_each, map_page}

unfoldable pub verusrpage : ℕ → ℕ → Paging → Bool
verusrpage p prot s =
    let pe = s.tables (dir_index p) (table_index p) in
    if not (has_bit (s.dir (dir_index p)) pg_present)
    then false
    else if not (has_bit pe pg_present)
    then false
    else if not (has_bit pe pg_user)
    then false
    else not (has_bit prot prot_write && not (has_bit pe pg_writeable))

unfoldable pub check_pages : ℕ → ℕ → ℕ → ℕ → Paging → Bool
unfolding verusrpage
check_pages zero i j prot s = false
check_pages (suc k) i j prot s =
    let rest = check_pages k ((i + pg_len) % 2 ^ 32) j prot s in
    if not (ltb i j) then true else if not (verusrpage i prot s) then false else rest

unfoldable pub verusrptr : ℕ → ℕ → ℕ → ℕ → Paging → Bool
unfolding check_pages
verusrptr fuel p len prot s = check_pages fuel p ((p + len) % 2 ^ 32) prot s

-- `*s`, in a page that is there.
abbrev pub user_byte : Vm → ℕ → ℕ
user_byte s a = s.mem (addr_of (s.paging.tables (dir_index a) (table_index a)) + a % pg_len)

unfoldable pub verusrstr : ℕ → ℕ → ℕ → Vm → Bool
unfolding verusrpage
verusrstr zero a prot s = false
verusrstr (suc k) a prot s =
    let rest = verusrstr k ((a + 1) % 2 ^ 32) prot s in
    if not (verusrpage a prot s.paging) then false else if user_byte s a == 0 then true else rest

-- The pages of a buffer; an entry is the address of a page.
pub record PgList : Type 0 where
  pub rc : ℕ
  pub len : ℕ
  pub delta : ℕ
  pub e : List ℕ

abbrev ref_if : ℕ → Vm → Vm
ref_if a s = if a == 0 then s else ref_page a s

-- The entries are cleared by `calloc` when `pmapget` reads one of them, and the flags of an entry are
-- masked off before the test of `PGNOTMAPPED`: the reference goes to the owner of page 0.
unfoldable pub get_pages : List ℕ → Vm → List ℕ × Vm
unfolding ref_page
get_pages [] s = ([], s)
get_pages (i ∷ is) s =
    let pe = addr_of (s.paging.tables (dir_index i) (table_index i)) in
    let p = (if has_bit pe pg_notmapped then pe - 2 ^ pg_notmapped else pmapget s.owners 0) in
    let (es, s') = get_pages is (ref_if p s) in (pe ∷ es, s')

unfoldable pub getusrptr : ℕ → ℕ → ℕ → Vm → Option (PgList × Vm)
unfolding get_pages page_range
getusrptr fuel p len s = do
  is ← page_range fuel p ((p + len) % 2 ^ 32)
  (let (es, s') = get_pages is s in
      some (record { rc = mkref; len = len; delta = p % pg_len; e = es }, s'))

-- `freeup`: the owner of each page loses a reference.
unfoldable pub drop_pages : List ℕ → Vm → Option Vm
unfolding unref_page
drop_pages [] s = some s
drop_pages (pe ∷ es) s = do
  let p = if has_bit pe pg_notmapped then pe - 2 ^ pg_notmapped else pmapget s.owners pe
  s' ← if p == 0 then some s else unref_page p s
  drop_pages es s'

unfoldable pub unref_list : PgList → Vm → Option (PgList × Vm)
unfolding drop_pages
unref_list pl s = elim (unref pl.rc) [
  | alive n ↦ some (record pl { rc = n }, s)
  | freed ↦ do s' ← drop_pages pl.e s; some (record pl { rc = 0 }, s')
  | fault ↦ none
]

abbrev pub entry_at : List ℕ → ℕ → ℕ
entry_at [] n = 0
entry_at (x ∷ xs) zero = x
entry_at (x ∷ xs) (suc n) = entry_at xs n

abbrev pub put_page : PgList → ℕ → ℕ → Vm → Option Vm
put_page pl pgs i s = map_page i (pgemk (entry_at pl.e ((i - pgs) / pg_len)) 3 true false) s

-- The pages of the list at a free place of the process: 0 where there is none.
unfoldable pub putusrptr : ℕ → PgList → Vm → Option (ℕ × PgList × Vm)
unfolding page_range for_each
putusrptr fuel pl s = do
  let plen = pl.len + pg_len - pl.len % pg_len
  pgs ← pgfind fuel plen true s.paging
  (if pgs == 0 then some (0, pl, s) else (do
    is ← page_range fuel pgs ((pgs + pl.len) % 2 ^ 32)
    s' ← for_each (put_page pl pgs) is s
    some (pgs + pl.delta, record pl { rc = ref pl.rc }, s')))

-- What `pgunmap` gives is not used; the reference of the table's page is part of it.
abbrev pub unmap_only : ℕ → Vm → Option Vm
unmap_only i s =
    let (p, up, paging) = pgunmap s.owners i s.paging in
    if up == 0
    then some (record s { paging = paging })
    else unref_page up (record s { paging = paging })

unfoldable pub freeusrptr : ℕ → PgList → ℕ → Vm → Option (PgList × Vm)
unfolding page_range for_each unref_list
freeusrptr fuel pl ptr s = do
  is ← page_range fuel ptr ((ptr + pl.len) % 2 ^ 32)
  s' ← for_each unmap_only is s
  unref_list pl s'
