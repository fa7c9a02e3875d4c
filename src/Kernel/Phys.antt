-- ===== src/Kernel/Phys.antt =====
-- src/mem/phys.c: the free physical pages. A free page holds its own list node: a page of the list of
-- single pages the address of the next one, and the first page of a region the next region and the
-- region's length in bytes. The debugging output is not modelled.
pub mod Free
mod Tests
use yax.Base.{
  ℕ, zero, suc, ◌+◌, ◌-◌, ◌%◌, ◌^◌, Bool, true, false, not, Option, none, some, List, [], ◌∷◌, ◌&&◌,
  ◌||◌, ltb, leb, ◌==◌, if◌then◌else◌,
}

abbrev pub pg_len : ℕ
pg_len = 4096

-- The address that stands for no page.
abbrev pub no_phys_pg : ℕ
no_phys_pg = 4294967295

-- `next` and `len` are the first two words of each page.
pub record Phys : Type 0 where
  pub rootrgn : ℕ
  pub rootppg : ℕ
  pub next : ℕ → ℕ
  pub len : ℕ → ℕ

abbrev pub store : (ℕ → ℕ) → ℕ → ℕ → ℕ → ℕ
store f i v j = if j == i then v else f j

-- An entry of the memory map that the boot loader gives; its fields are 64-bit words.
pub record MemoryMap : Type 0 where
  pub base : ℕ
  pub len : ℕ
  pub type : ℕ

-- The rounding of an entry to whole pages.
unfoldable pub round : MemoryMap → MemoryMap
round m =
    let base_off = m.base % pg_len in
    let m1 =
      (if base_off == 0 then m else record m {
        base = (m.base + (pg_len - base_off)) % 2 ^ 64;
        len = (m.len + 2 ^ 64 - (pg_len - base_off)) % 2 ^ 64;
      }) in
    record m1 { len = m1.len - m1.len % pg_len }

-- Whether the entry is memory to use, outside the kernel from `lo` to `hi`.
unfoldable pub is_usable : ℕ → ℕ → MemoryMap → Bool
is_usable lo hi m =
    (m.type == 1) && not (m.len == 0) && (ltb ((m.base + m.len) % 2 ^ 64) lo || ltb hi m.base)

unfoldable pub add_region : ℕ → ℕ → MemoryMap → Phys → Phys
add_region lo hi entry s =
    let m = round entry in
    let base = m.base % 2 ^ 32 in
    if is_usable lo hi m
    then record {
      rootrgn = base;
      rootppg = s.rootppg;
      next = store s.next base s.rootrgn;
      len = store s.len base ((m.len - m.len % pg_len) % 2 ^ 32);
    }
    else s

unfoldable pub ppginit : ℕ → ℕ → List MemoryMap → Phys → Phys
ppginit lo hi [] s = s
ppginit lo hi (m ∷ ms) s = ppginit lo hi ms (add_region lo hi m s)

-- `none` is the halt without memory.
unfoldable pub ppgalloc : Phys → Option (ℕ × Phys)
ppgalloc s =
    let rest = (s.rootrgn + pg_len) % 2 ^ 32 in
    if not (s.rootppg == no_phys_pg)
    then some (s.rootppg, record s { rootppg = s.next s.rootppg })
    else if s.rootrgn == no_phys_pg
    then none
    else if s.len s.rootrgn == pg_len
    then some (s.rootrgn, record s { rootrgn = s.next s.rootrgn })
    else some (
      s.rootrgn,
      record {
        rootrgn = rest;
        rootppg = s.rootppg;
        next = store s.next rest (s.next s.rootrgn);
        len = store s.len rest ((s.len s.rootrgn + 2 ^ 32 - pg_len) % 2 ^ 32);
      },
    )

unfoldable pub ppgfree : ℕ → Phys → Phys
ppgfree p s = record s { rootppg = p; next = store s.next p s.rootppg }

-- How a search of `ppgreserve` ends.
pub data Reserve : Type 0 where
  reserved : Phys → Reserve
  missing : Reserve
  out_of_fuel : Reserve

-- The region at `cp`, behind `pcp`, is cut at page `pg`.
unfoldable pub cut_region : ℕ → ℕ → ℕ → Phys → Phys
cut_region pcp cp pg s =
    let after = (pg + pg_len) % 2 ^ 32 in
    let nr_len = (s.len cp + 2 ^ 32 - (pg - cp + pg_len)) % 2 ^ 32 in
    let nr_next = s.next cp in
    let s1 = record s { len = store s.len cp (pg - cp); next = store s.next cp after } in
    let s2 =
      (if not (pg - cp == 0)
        then s1
        else if not (pcp == no_phys_pg)
        then record s1 { next = store s1.next pcp after }
        else record s1 { rootrgn = after }) in
    if ltb 0 nr_len
    then record s2 { len = store s2.len after nr_len; next = store s2.next after nr_next }
    else s2

unfoldable pub reserve_region : ℕ → ℕ → ℕ → ℕ → Phys → Reserve
reserve_region zero pcp cp pg s = out_of_fuel
reserve_region (suc k) pcp cp pg s =
    let rest = reserve_region k cp (s.next cp) pg s in
    if cp == no_phys_pg
    then missing
    else if leb cp pg && ltb pg ((cp + s.len cp) % 2 ^ 32)
    then reserved (cut_region pcp cp pg s)
    else rest

unfoldable pub reserve_page : ℕ → ℕ → ℕ → ℕ → Phys → Reserve
reserve_page zero pcp cp pg s = out_of_fuel
reserve_page (suc k) pcp cp pg s =
    let rest = reserve_page k cp (s.next cp) pg s in
    if cp == no_phys_pg
    then missing
    else if cp == pg
    then (if pcp == no_phys_pg
        then reserved (record s { rootppg = s.next cp })
        else reserved (record s { next = store s.next pcp (s.next cp) }))
    else rest

-- `ppgreserve`, with fuel for its two loops: it returns 0 where the page is reserved, else 1.
unfoldable pub ppgreserve : ℕ → ℕ → Phys → Reserve
ppgreserve k pg s = elim (reserve_region k no_phys_pg s.rootrgn pg s) [
  | reserved s' ↦ reserved s'
  | missing ↦ reserve_page k no_phys_pg s.rootppg pg s
  | out_of_fuel ↦ out_of_fuel
]
