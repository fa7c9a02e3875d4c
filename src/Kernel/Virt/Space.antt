-- ===== src/Kernel/Virt/Space.antt =====
-- src/mem/virt.c: the functions that map and unmap a range. A range is gone through page by page with
-- addresses that wrap, on fuel; the search for a place has the same fuel.
use yax.Base.{
  ℕ, zero, suc, ◌+◌, ◌-◌, ◌%◌, ◌^◌, Bool, true, false, not, Option, none, some, List, [], ◌∷◌, ltb,
  ◌==◌, if◌then◌else◌, has_bit, ◌>>=◌,
}
use yax.Codes.{enomem}
use yax.Kernel.Phys.{pg_len, no_phys_pg}
use yax.Kernel.Pmap.{take_ref}
use yax.Kernel.Paging.{pgmap, pgfind, pgemk, pg_notmapped}
use yax.Kernel.Virt.{Vm, Page, Outside, alloc, set_page, pagemk, unmap_page}

-- The bits of `enum mapflags`.
abbrev pub map_private : ℕ
map_private = 0

abbrev pub map_fixed : ℕ
map_fixed = 2

abbrev pub map_noshare : ℕ
map_noshare = 4

-- `ERR2PTR(-ENOMEM)`
abbrev pub err_nomem : ℕ
err_nomem = 2 ^ 32 - enomem

-- The addresses from `i` on, a page apart, that lie below `j`; `none` is out of fuel. A range in the last
-- page of the address space wraps around, and has no end.
unfoldable pub page_range : ℕ → ℕ → ℕ → Option (List ℕ)
page_range zero i j = if ltb i j then none else some []
page_range (suc k) i j =
    let rest = page_range k ((i + pg_len) % 2 ^ 32) j in
    if ltb i j then (do is ← rest; some (i ∷ is)) else some []

unfoldable pub for_each : (ℕ → Vm → Option Vm) → List ℕ → Vm → Option Vm
for_each f [] s = some s
for_each f (i ∷ is) s = do s' ← f i s; for_each f is s'

-- `for(i = pgs; i < pgs + len + PGLEN-1; i += PGLEN)`
abbrev pub for_pages : ℕ → ℕ → ℕ → (ℕ → Vm → Option Vm) → Vm → Option Vm
for_pages fuel pgs len f s = do
  is ← page_range fuel pgs ((pgs + len + (pg_len - 1)) % 2 ^ 32)
  for_each f is s

abbrev pub map_page : ℕ → ℕ → Vm → Option Vm
map_page i pe s = do paging ← pgmap i pe s.paging; some (record s { paging = paging })

unfoldable pub vpgunmap : ℕ → ℕ → ℕ → Vm → Option Vm
unfolding for_each page_range
vpgunmap fuel addr len s = for_pages fuel addr len unmap_page s

-- The place of a map: the given one, where what is there is unmapped, or a free one, 0 for none.
unfoldable pub place : ℕ → ℕ → ℕ → ℕ → ℕ → Vm → Option (ℕ × Vm)
unfolding vpgunmap
place fuel addr len flags room s =
    if has_bit flags map_fixed
    then (do s' ← vpgunmap fuel addr len s; some (addr, s'))
    else (do pgs ← pgfind fuel room true s.paging; some (pgs, s))

-- The error where nothing was found; a fixed address may be 0.
abbrev pub not_found : ℕ → ℕ → Bool
not_found flags pgs = if has_bit flags map_fixed then false else pgs == 0

abbrev pub kmap_page : ℕ → ℕ → Vm → Option Vm
kmap_page prot i s = do (p, s1) ← alloc s; map_page i (pgemk p prot false false) s1

unfoldable pub vpgkmap : ℕ → ℕ → ℕ → Vm → Option (ℕ × Vm)
unfolding for_each page_range
vpgkmap fuel len prot s = do
  pgs ← pgfind fuel len false s.paging
  (if pgs == 0
      then some (err_nomem, s)
      else (do s' ← for_pages fuel pgs len (kmap_page prot) s; some (pgs, s')))

-- A page that is given memory at its first access.
abbrev pub umap_page : Outside → ℕ → ℕ → ℕ → Vm → Option Vm
umap_page out prot flags i s = do
  (a, s1) ← pagemk out no_phys_pg prot (has_bit flags map_noshare) s
  map_page i (a + 2 ^ pg_notmapped) s1

unfoldable pub vpgumap : Outside → ℕ → ℕ → ℕ → ℕ → ℕ → Vm → Option (ℕ × Vm)
unfolding for_each page_range place
vpgumap out fuel addr len prot flags s = do
  (pgs, s1) ← place fuel addr len flags len s
  (if not_found flags pgs
      then some (err_nomem, s1)
      else (do s' ← for_pages fuel pgs len (umap_page out prot flags) s1; some (pgs, s')))

-- The part of the file that goes into the page at `i`.
abbrev pub file_part : ℕ → ℕ → ℕ → ℕ → ℕ → Page → Page
file_part pgs len c off i pg =
    let left = (pgs + len + 2 ^ 32 - i) % 2 ^ 32 in
    record pg {
      conn = c;
      off = off + i - pgs;
      start = i % pg_len;
      len = (if ltb pg_len left then pg_len else left);
    }

-- A shared map of a file puts nothing there.
abbrev pub fmap_page : Outside → ℕ → ℕ → ℕ → ℕ → ℕ → ℕ → ℕ → Vm → Option Vm
fmap_page out pgs len prot flags c off i s = if not (has_bit flags map_private) then some s else (do
  (a, s1) ← pagemk out no_phys_pg prot (has_bit flags map_noshare) s
  map_page i (a + 2 ^ pg_notmapped) (record s1 {
    pages = set_page s1.pages a (file_part pgs len c off i (s1.pages a));
    conn_refs = take_ref c ∷ s1.conn_refs;
  }))

unfoldable pub vpgfmap : Outside → ℕ → ℕ → ℕ → ℕ → ℕ → ℕ → ℕ → Vm → Option (ℕ × Vm)
unfolding for_each page_range place
vpgfmap out fuel addr len prot flags c off s = do
  (pgs, s1) ← place fuel addr len flags (len + off % pg_len) s
  (if not_found flags pgs then some (err_nomem, s1) else (do
    s' ← for_pages fuel pgs len (fmap_page out pgs len prot flags c off) s1
    some (pgs, s')))

-- Every page of the range gets the same physical address.
unfoldable pub vpgpmap : ℕ → ℕ → ℕ → ℕ → ℕ → ℕ → Vm → Option (ℕ × Vm)
unfolding for_each page_range place
vpgpmap fuel addr len prot flags phys s = do
  (pgs, s1) ← place fuel addr len flags len s
  (if not_found flags pgs then some (err_nomem, s1) else (do
    s' ←
        for_pages fuel pgs len (λ i. map_page i (pgemk phys prot (has_bit flags map_noshare) true))
          s1
    some (pgs, s')))
