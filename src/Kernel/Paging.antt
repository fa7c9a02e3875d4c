-- ===== src/Kernel/Paging.antt =====
-- src/mem/pgdir.c: the page directory and its tables. An entry is a word of flags and a page's
-- address; an address is a whole number of pages where it goes into an entry, so that `|` adds the
-- flags to it. `PT(i)` is table `i`, which the directory maps into itself. The invalidation of the
-- translation cache and the debugging output are not modelled.
pub mod Lookup
pub mod Find
mod Tests
use yax.Base.{
  ℕ, zero, suc, ◌+◌, ◌-◌, ◌*◌, ◌/◌, ◌%◌, ◌^◌, Bool, true, false, not, Option, none, some, List, [],
  ◌∷◌, ◌&&◌, ◌||◌, ltb, leb, ◌==◌, if◌then◌else◌, has_bit, ◌>>=◌,
}
use yax.Kernel.Phys.{pg_len, Phys, ppgalloc, store}
use yax.Kernel.Pmap.{Pmap, pmapget}

-- The flags, as bit numbers.
abbrev pub pg_present : ℕ
pg_present = 0

abbrev pub pg_writeable : ℕ
pg_writeable = 1

abbrev pub pg_user : ℕ
pg_user = 2

abbrev pub pg_global : ℕ
pg_global = 8

abbrev pub pg_noshare : ℕ
pg_noshare = 9

abbrev pub pg_cow : ℕ
pg_cow = 10

abbrev pub pg_phys : ℕ
pg_phys = 11

-- An entry that is not present and has this bit holds the address of a `Page`.
abbrev pub pg_notmapped : ℕ
pg_notmapped = 1

-- `pe & PGADDR`
abbrev pub addr_of : ℕ → ℕ
addr_of pe = pe / pg_len * pg_len

abbrev pub prot_read : ℕ
prot_read = 0

abbrev pub prot_write : ℕ
prot_write = 1

-- The first address of the kernel, `VIRT(0)`, and the page `SPG`.
abbrev pub virt : ℕ
virt = 12 * 2 ^ 28

abbrev pub spg : ℕ
spg = 4290760704

abbrev pub flag : Bool → ℕ → ℕ
flag b k = if b then 2 ^ k else 0

unfoldable pub pgemk : ℕ → ℕ → Bool → Bool → ℕ
pgemk addr prot noshare phys =
    addr
    + flag noshare pg_noshare
    + flag phys pg_phys
    + (if leb virt addr then 2 ^ pg_global else 2 ^ pg_user)
    + flag (has_bit prot prot_write) pg_writeable
    + 1

-- The directory, the tables and the free pages. The last entry of the directory, which leads to itself,
-- has no table here: what is seen through it are the entries of `dir`.
pub record Paging : Type 0 where
  pub dir : ℕ → ℕ
  pub tables : ℕ → ℕ → ℕ
  pub phys : Phys

-- The places of an address in the directory and in its table.
abbrev pub dir_index : ℕ → ℕ
dir_index pg = pg / pg_len / 1024

abbrev pub table_index : ℕ → ℕ
table_index pg = pg / pg_len % 1024

-- `(*pt)[j] = page`, in table `i`.
abbrev pub set_entry : (ℕ → ℕ → ℕ) → ℕ → ℕ → ℕ → ℕ → ℕ → ℕ
set_entry ts i j page k l = if (k == i) && (l == j) then page else ts k l

-- A page becomes a table, and is cleared.
abbrev pub new_table : ℕ → ℕ → Phys → Paging → Paging
new_table i p phys s = record {
  dir = store s.dir i (p + (2 ^ pg_user + 2 ^ pg_writeable + 1));
  tables = (λ k l. if k == i then 0 else s.tables k l);
  phys = phys;
}

-- A missing table is made of a free page.
unfoldable pub ensure_table : ℕ → Paging → Option Paging
ensure_table i s =
    if has_bit (s.dir i) pg_present
    then some s
    else (do (p, phys) ← ppgalloc s.phys; some (new_table i p phys s))

-- `none` is the halt without memory.
unfoldable pub pgmap : ℕ → ℕ → Paging → Option Paging
unfolding ensure_table
pgmap pg page s = do
  s1 ← ensure_table (dir_index pg) s
  some (record s1 { tables = set_entry s1.tables (dir_index pg) (table_index pg) page })

-- Whether the first `n` entries of a table are clear.
unfoldable pub clear_upto : ℕ → (ℕ → ℕ) → Bool
clear_upto zero t = true
clear_upto (suc n) t = (t n == 0) && clear_upto n t

-- The entry is cleared if it is present, and the table is taken down if no entry is left: the address
-- that was mapped, the `Page` of the table's page that loses a reference (0 for none), and the state.
unfoldable pub pgunmap : Pmap → ℕ → Paging → ℕ × ℕ × Paging
unfolding clear_upto
pgunmap owners pg s =
    let i = dir_index pg in
    let pe = s.tables i (table_index pg) in
    let there = has_bit pe pg_present in
    let p = (if there then addr_of pe else 0) in
    let s1 = (if there then record s { tables = set_entry s.tables i (table_index pg) 0 } else s) in
    if not (has_bit (s.dir i) pg_present)
    then (0, 0, s)
    else if not (clear_upto 1024 (s1.tables i))
    then (p, 0, s1)
    else (p, pmapget owners (addr_of (s.dir i)), record s1 { dir = store s1.dir i 0 })

-- Whether a page is present in the directory and in its table.
unfoldable pub is_present : Paging → ℕ → Bool
is_present s i =
    has_bit (s.dir (dir_index i)) pg_present
    && has_bit (s.tables (dir_index i) (table_index i)) pg_present

-- The inner loop: the page at which it stops, `none` if it comes to the end `j`.
unfoldable pub scan : ℕ → Paging → ℕ → ℕ → Option (Option ℕ)
unfolding is_present
scan zero s i j = none
scan (suc k) s i j =
    let rest = scan k s (i + pg_len) j in
    if not (ltb i j) then some none else if is_present s i then some (some i) else rest

-- The outer loop, with the fuel for itself and for the inner one; 0 is the result where nothing is
-- found, and `none` is out of fuel.
unfoldable pub find_from : ℕ → ℕ → Paging → ℕ → ℕ → ℕ → Option ℕ
unfolding scan
find_from zero m s i limit len = none
find_from (suc k) m s i limit len =
    let j = (i + len) % 2 ^ 32 in
    if not (ltb i limit) || leb limit j then some 0 else elim (scan m s i j) [
      | none ↦ none
      | some stop ↦ elim stop [
        | none ↦ some ((j + 2 ^ 32 - len) % 2 ^ 32)
        | some at ↦ find_from k m s (at + pg_len) limit len
      ]
    ]

unfoldable pub pgfind : ℕ → ℕ → Bool → Paging → Option ℕ
unfolding find_from
pgfind fuel len user s =
    find_from fuel (len / pg_len + 2) s (if user then pg_len else virt) (if user then virt else spg)
      len
