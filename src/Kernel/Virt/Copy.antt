-- ===== src/Kernel/Virt/Copy.antt =====
-- src/mem/virt.c: the address space of a new process, `vpgnew`, `vpgcopy`, `vpgclear` and `vpgdel`.
-- The kernel writes to a page that is not mapped through the window `SPG`; here it is a write to that
-- page.
use yax.Base.{
  ℕ, zero, suc, ◌+◌, ◌-◌, ◌/◌, ◌%◌, ◌^◌, Bool, not, Option, some, ◌&&◌, ◌||◌, ◌==◌, if◌then◌else◌,
  has_bit, ◌>>=◌,
}
use yax.Kernel.Phys.{pg_len, store, ppgfree}
use yax.Kernel.Pmap.{pmapget}
use yax.Kernel.Paging.{
  virt, set_entry, addr_of, pg_present, pg_writeable, pg_noshare, pg_cow, pg_phys, pg_notmapped,
}
use yax.Kernel.Virt.{Vm, Outside, alloc, ref_page, with_phys}
use yax.Kernel.Virt.Space.{vpgunmap}

-- A directory that is not the present one: its address, its entries and its own tables.
pub record Child : Type 0 where
  pub at : ℕ
  pub dir : ℕ → ℕ
  pub tables : ℕ → ℕ → ℕ

-- The entry 1023 shows the directory itself.
unfoldable pub vpgnew : Outside → Vm → Option (Child × Vm)
vpgnew out s = do
  (pdp, s1) ← alloc s
  let self = pdp + 2 ^ pg_noshare + 2 ^ pg_writeable + 2 ^ pg_present
  some (record { at = pdp; dir = store out.kernel_pd 1023 self; tables = λ i j. 0 }, s1)

-- `(pe & ~PGWRITEABLE) | PGCOW`
abbrev pub cow_entry : ℕ → ℕ
cow_entry pe =
    let pe' = (if has_bit pe pg_writeable then pe - 2 ^ pg_writeable else pe) in
    if has_bit pe' pg_cow then pe' else pe' + 2 ^ pg_cow

-- Whether a page is to be copied at the first write.
abbrev pub is_private : Bool → ℕ → Bool
is_private memshare pe = has_bit pe pg_writeable && (not memshare || has_bit pe pg_noshare)

-- What becomes of an entry in the present process, and what the new one has.
unfoldable pub parent_entry : Bool → ℕ → ℕ
parent_entry memshare pe =
    if not (has_bit pe pg_present) || has_bit pe pg_phys
    then pe
    else if is_private memshare pe
    then cow_entry pe
    else pe

unfoldable pub child_entry : Bool → ℕ → ℕ
unfolding parent_entry
child_entry memshare pe =
    if not (has_bit pe pg_present) && not (has_bit pe pg_notmapped)
    then 0
    else parent_entry memshare pe

-- The page that gets a reference.
abbrev pub ref_entry : ℕ → Vm → Vm
ref_entry pe s =
    if not (has_bit pe pg_present)
    then (if has_bit pe pg_notmapped then ref_page (pe - 2 ^ pg_notmapped) s else s)
    else if has_bit pe pg_phys
    then s
    else ref_page (pmapget s.owners (addr_of pe)) s

unfoldable pub copy_entry : Bool → ℕ → ℕ → Child × Vm → Child × Vm
unfolding child_entry ref_page
copy_entry memshare i j (c, s) =
    let pe = s.paging.tables i j in
    let s1 = ref_entry pe s in
    (
      record c { tables = set_entry c.tables i j (child_entry memshare pe) },
      record s1 {
        paging = record s1.paging {
          tables = set_entry s1.paging.tables i j (parent_entry memshare pe);
        };
      },
    )

-- The first `n` entries of table `i`, in their order.
unfoldable pub copy_entries : Bool → ℕ → ℕ → Child × Vm → Child × Vm
unfolding copy_entry
copy_entries memshare i zero cs = cs
copy_entries memshare i (suc n) cs = copy_entry memshare i n (copy_entries memshare i n cs)

-- A table that is there: the new process has a table of its own, cleared at first.
unfoldable pub copy_table : Bool → ℕ → Child × Vm → Option (Child × Vm)
copy_table memshare i (c, s) =
    if not (has_bit (s.paging.dir i) pg_present) then some (c, s) else (do
      (p, s1) ← alloc s
      let c1 = record c {
        dir = store c.dir i (s1.paging.dir i % pg_len + p);
        tables = (λ k l. if k == i then 0 else c.tables k l);
      }
      some (copy_entries memshare i 1024 (c1, s1)))

unfoldable pub copy_tables : Bool → ℕ → Child × Vm → Option (Child × Vm)
copy_tables memshare zero cs = some cs
copy_tables memshare (suc n) cs = do cs' ← copy_tables memshare n cs; copy_table memshare n cs'

-- The tables below the kernel's are copied.
unfoldable pub vpgcopy : Outside → Bool → Vm → Option (Child × Vm)
vpgcopy out memshare s = do cs ← vpgnew out s; copy_tables memshare (virt / pg_len / 1024) cs

abbrev pub vpgclear : ℕ → Vm → Option Vm
vpgclear fuel s = vpgunmap fuel 0 (virt - 1) s

-- The directory's page is free again.
unfoldable pub vpgdel : ℕ → Vm → Vm
vpgdel pd s = with_phys (ppgfree pd s.paging.phys) s
