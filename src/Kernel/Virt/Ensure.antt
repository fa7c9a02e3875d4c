-- ===== src/Kernel/Virt/Ensure.antt =====
-- src/mem/virt.c: what a page fault does.
use yax.Base.{
  ℕ, ◌+◌, ◌-◌, ◌/◌, ◌%◌, ◌^◌, Bool, true, false, not, Option, none, some, ◌&&◌, ◌||◌, ltb, leb,
  ◌==◌, if◌then◌else◌, has_bit, ◌>>=◌,
}
use yax.Kernel.Phys.{pg_len, no_phys_pg}
use yax.Kernel.Pmap.{pmapget}
use yax.Kernel.Paging.{
  pgemk, dir_index, table_index, set_entry, addr_of, pg_present, pg_writeable, pg_cow, pg_notmapped,
}
use yax.Kernel.Virt.{Vm, Page, Outside, alloc, set_page, pagemk, set_owner}
use yax.Kernel.Virt.Space.{map_page}

-- The bytes of page `p` become those of page `q`.
abbrev pub copy_page : ℕ → ℕ → (ℕ → ℕ) → ℕ → ℕ
copy_page p q m a = if a / pg_len == p / pg_len then m (addr_of q + a % pg_len) else m a

-- What is read goes to the beginning of the part, and zeros behind the part, in physical page `p`.
abbrev pub fill_page : Outside → ℕ → Page → (ℕ → ℕ) → ℕ → ℕ
fill_page out p pg m a =
    let k = a % pg_len in
    if not (a / pg_len == p / pg_len)
    then m a
    else if pg.conn == 0
    then 0
    else if leb (pg.start + pg.len) k
    then 0
    else if ltb k pg.start
    then m a
    else elim (out.mpread pg.conn pg.len pg.off (k - pg.start)) [ none ↦ m a | some b ↦ b ]

-- `*pep &= ~(PGADDR | PGCOW)`, `*pep |= p | PGWRITEABLE`
abbrev pub own_entry : ℕ → ℕ → ℕ
own_entry pe p =
    let flags = pe % pg_len in
    let flags' = (if has_bit flags pg_cow then flags - 2 ^ pg_cow else flags) in
    p + (if has_bit flags' pg_writeable then flags' else flags' + 2 ^ pg_writeable)

-- The write to a page that is shared until then.
unfoldable pub copy_on_write : Outside → ℕ → ℕ → Vm → Option Vm
copy_on_write out pga pe s = do
  let p2 = addr_of pe
  let pg = s.pages (pmapget s.owners p2)
  (p, s1) ← alloc s
  (a, s2) ← pagemk out p pg.prot pg.noshare s1
  s3 ← set_owner p a s2
  some (record s3 {
    paging = record s3.paging {
      tables = set_entry s3.paging.tables (dir_index pga) (table_index pga) (own_entry pe p);
    };
    mem = copy_page p p2 s3.mem;
  })

-- The page gets its entry and its bytes; it can be written until it has them. Where the part would not
-- end in the page, the rest to be cleared wraps to almost all of the address space, and the kernel does
-- not come out of it.
unfoldable pub fill_mapped : Outside → ℕ → ℕ → Page → Vm → Option Vm
fill_mapped out pga p pg s = do
  let pe = pgemk p pg.prot pg.noshare false
  let pe_w = if has_bit pe pg_writeable then pe else pe + 2 ^ pg_writeable
  s1 ← map_page pga pe_w s
  let s2 = record s1 { mem = fill_page out p pg s1.mem }
  (if not (pg.conn == 0) && ltb pg_len (pg.start + pg.len)
      then none
      else if not (has_bit pe pg_writeable)
      then map_page pga pe s2
      else some s2)

-- The first access to a page.
unfoldable pub first_access : Outside → ℕ → ℕ → Vm → Option Vm
unfolding set_owner fill_mapped
first_access out pga a s = do
  (p, s1) ← alloc s
  s2 ← set_owner p a (record s1 { pages = set_page s1.pages a (record (s1.pages a) { p = p }) })
  fill_mapped out pga p (s2.pages a) s2

-- Whether the access goes on, with the state; `w` tells a write. It is -1 (false) where the process
-- may not have the page.
unfoldable pub ensure : Outside → ℕ → Bool → Vm → Option (Bool × Vm)
unfolding copy_on_write first_access
ensure out pga w s =
    let pe = s.paging.tables (dir_index pga) (table_index pga) in
    let a = pe - 2 ^ pg_notmapped in
    if not (has_bit (s.paging.dir (dir_index pga)) pg_present)
    then some (false, s)
    else if has_bit pe pg_present
    then (if has_bit pe pg_cow && w
        then (do s' ← copy_on_write out pga pe s; some (true, s'))
        else some (has_bit pe pg_writeable || not w, s))
    else if has_bit pe pg_notmapped
    then (if (s.pages a).p == no_phys_pg
        then (do s' ← first_access out pga a s; some (true, s'))
        else (do
          s' ← map_page pga (pgemk (s.pages a).p (s.pages a).prot (s.pages a).noshare false) s
          some (true, s')))
    else some (false, s)

-- The fault is served, or the kernel halts with a report.
unfoldable pub page_fault : Outside → ℕ → ℕ → Vm → Option Vm
unfolding ensure
page_fault out addr err s = do
  (served, s') ← ensure out (addr_of addr) (has_bit err 1) s
  if served then some s' else none
