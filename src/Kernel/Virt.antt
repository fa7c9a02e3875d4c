-- ===== src/Kernel/Virt.antt =====
-- src/mem/virt.c and the pages of src/mem/user.c: maps of a process's memory. A `Page` stands behind
-- a physical page from the first access on, and behind an entry that is not present before it. The
-- heap and the connections are parameters; `none` is the halt, and the fault where a reference is
-- given back that was not taken. The nodes of the page map take no room in the heap.
pub mod Space
pub mod Ensure
pub mod Served
pub mod Access
pub mod Fault
pub mod Copy
pub mod Fork
mod Tests
use yax.Base.{
  ℕ, zero, suc, ◌+◌, ◌-◌, ◌*◌, ◌/◌, ◌%◌, ◌^◌, Bool, true, false, not, Option, none, some, List, [],
  ◌∷◌, ◌&&◌, ◌||◌, ltb, ◌==◌, if◌then◌else◌, has_bit, ◌>>=◌,
}
use yax.Codas.Ref.{mkref, ref, unref, alive, freed, fault}
use yax.Kernel.Phys.{Phys, pg_len, no_phys_pg, ppgalloc, ppgfree, store}
use yax.Kernel.Pmap.{Pmap, RefOp, take_ref, drop_ref, pmapget, pmapset, pmapdel}
use yax.Kernel.Paging.{Paging, pgunmap}

pub record Page : Type 0 where
  pub rc : ℕ
  pub p : ℕ
  pub prot : ℕ
  pub noshare : Bool
  pub conn : ℕ
  pub off : ℕ
  pub start : ℕ
  pub len : ℕ

pub data HeapOp : Type 0 where
  malloc_op : HeapOp
  free_op : ℕ → HeapOp

-- What is outside: the address that `malloc` gives after the calls so far, the byte that `MPREAD`
-- puts at a place of the buffer (none where it puts none), by the connection, the length and the
-- offset, and the kernel's page directory.
pub record Outside : Type 0 where
  pub malloc : List HeapOp → ℕ
  pub mpread : ℕ → ℕ → ℕ → ℕ → Option ℕ
  pub kernel_pd : ℕ → ℕ

-- The tables, the pages by their addresses, the calls of the heap and of the connections' counts,
-- the last first, and the bytes of the physical memory.
pub record Vm : Type 0 where
  pub paging : Paging
  pub owners : Pmap
  pub pages : ℕ → Page
  pub heap : List HeapOp
  pub conn_refs : List RefOp
  pub mem : ℕ → ℕ

abbrev pub set_page : (ℕ → Page) → ℕ → Page → ℕ → Page
set_page ps a pg b = if b == a then pg else ps b

abbrev pub with_phys : Phys → Vm → Vm
with_phys m s = record s { paging = record s.paging { phys = m } }

abbrev pub alloc : Vm → Option (ℕ × Vm)
alloc s = do (p, m) ← ppgalloc s.paging.phys; some (p, with_phys m s)

-- `pmapdel` changes no count.
unfoldable pub freepage : ℕ → Vm → Vm
freepage a s =
    let pg = s.pages a in
    let gone : List RefOp =
      (if pg.conn == 0 then s.conn_refs else drop_ref pg.conn ∷ s.conn_refs) in
    let s1 =
      (if pg.p == no_phys_pg
        then s
        else with_phys (ppgfree pg.p s.paging.phys)
            (record s { owners = (pmapdel s.owners pg.p).0 })) in
    record s1 { heap = free_op a ∷ s.heap; conn_refs = gone }

unfoldable pub ref_page : ℕ → Vm → Vm
ref_page a s = record s {
  pages = set_page s.pages a (record (s.pages a) { rc = ref (s.pages a).rc });
}

unfoldable pub unref_page : ℕ → Vm → Option Vm
unfolding freepage
unref_page a s = elim (unref (s.pages a).rc) [
  | alive n ↦ some (record s { pages = set_page s.pages a (record (s.pages a) { rc = n }) })
  | freed ↦ some (freepage a s)
  | fault ↦ none
]

unfoldable pub pagemk : Outside → ℕ → ℕ → Bool → Vm → Option (ℕ × Vm)
pagemk out pp prot noshare s =
    let a = out.malloc s.heap in
    let new : Page = record {
      rc = mkref;
      p = pp;
      prot = prot;
      noshare = noshare;
      conn = 0;
      off = (s.pages a).off;
      start = (s.pages a).start;
      len = (s.pages a).len;
    } in
    if not (a % 4 == 0)
    then none
    else some (a, record s { pages = set_page s.pages a new; heap = malloc_op ∷ s.heap })

-- `pmapset`: the old owner loses its reference first, then the new one is put into the map.
unfoldable pub set_owner : ℕ → ℕ → Vm → Option Vm
unfolding ref_page unref_page
set_owner p a s =
    let old = pmapget s.owners p in
    do
      s1 ← if not (a == 0) && not (old == 0) then unref_page old s else some s
      (let s2 = record s1 { owners = (pmapset s1.owners p a).0 } in
          some (if a == 0 then s2 else ref_page a s2))

-- One round of `vpgunmap`, the call of `pgunmap` with the reference of the table's page included.
unfoldable pub unmap_page : ℕ → Vm → Option Vm
unfolding unref_page
unmap_page i s =
    let (p, up, paging) = pgunmap s.owners i s.paging in
    do
      s1 ←
          if up == 0
          then some (record s { paging = paging })
          else unref_page up (record s { paging = paging })
      (let vp = pmapget s1.owners p in
          if p == 0
          then some s1
          else if vp == 0
          then some (with_phys (ppgfree p s1.paging.phys) s1)
          else unref_page vp s1)
