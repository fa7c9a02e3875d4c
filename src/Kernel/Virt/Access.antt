-- ===== src/Kernel/Virt/Access.antt =====
-- src/mem/virt.c: what `ensure` leaves of the page tables and the memory, on all its branches.
use yax.Base.{
  ℕ, ◌+◌, ◌/◌, ◌%◌, ◌^◌, ◌≡◌, Bool, true, false, not, none, some, ◌&&◌, ltb, arith, ◌==◌,
  if◌then◌else◌, has_bit, refl, Bool-cases, inl, inr, Option-cases, subst, ap, ◌∙◌,
}
use yax.Kernel.Phys.{Phys, pg_len, ppgalloc}
use yax.Kernel.Paging.{
  pgmap, pgemk, ensure_table, dir_index, table_index, set_entry, pg_present, pg_writeable,
}
use yax.Kernel.Paging.Lookup.{entry, set_entry-entry}
use yax.Kernel.Virt.{Vm, Page, Outside, alloc, set_page, set_owner}
use yax.Kernel.Virt.Space.{map_page}
use yax.Kernel.Virt.Ensure.{fill_mapped, fill_page, first_access}
use yax.Kernel.Virt.Served.{Keeps, Keeps-trans, Keeps-entry, Served, alloc-Keeps, set_owner-Keeps}

-- A page is mapped in a table that is there.
pub record Mapped (i pe : ℕ) (s s' : Vm) : Type 0 where
  pub dir : s'.paging.dir ≡ s.paging.dir
  pub mem : s'.mem ≡ s.mem
  pub entries :
      (q : ℕ) → entry s'.paging q ≡ (if q / pg_len == i / pg_len then pe else entry s.paging q)

pub map_page-Mapped :
    (i pe : ℕ) (s s' : Vm)
    → has_bit (s.paging.dir (dir_index i)) pg_present ≡ true
    → map_page i pe s ≡ some s'
    → Mapped i pe s s'
unfolding pgmap ensure_table
map_page-Mapped i pe s s' d e =
    let t : Vm = record s {
      paging = record s.paging {
        tables = set_entry s.paging.tables (dir_index i) (table_index i) pe;
      };
    } in
    let same : t ≡ s' = ground arith in
    subst (Mapped i pe s) same
      (record { dir = refl; mem = refl; entries = λ q. set_entry-entry i pe q s.paging d })

pub pgemk-present :
    (p prot : ℕ) (ns : Bool) → p % pg_len ≡ 0 → has_bit (pgemk p prot ns false) pg_present ≡ true
unfolding pgemk
pgemk-present p prot ns a = elim (Bool-cases ns) [ inl e ↦ ground arith | inr e ↦ ground arith ]

-- A page that was not there is served by an entry that is.
pub Served-new :
    (pga pe : ℕ) (w : Bool) (s s' : Vm)
    → has_bit pe pg_present ≡ true
    → has_bit (entry s.paging pga) pg_present ≡ false
    → ((q : ℕ) → entry s'.paging q ≡ (if q / pg_len == pga / pg_len then pe else entry s.paging q))
    → Served pga w s s'
Served-new pga pe w s s' h g es =
    let here : entry s'.paging pga ≡ pe = es pga ∙ (ground arith) in
    record {
      there = rw here h;
      writeable = λ x f. absurd (ground arith);
      others = λ q n. es q ∙ (ground arith);
    }

abbrev with_place : ℕ → ℕ → Vm → Vm
with_place a p s = record s { pages = set_page s.pages a (record (s.pages a) { p = p }) }

-- The entry that the first access leaves, and the memory.
pub record Accessed (out : Outside) (pga a : ℕ) (s s' : Vm) : Type 0 where
  pub page : ℕ
  pub phys : Phys
  pub got : ppgalloc s.paging.phys ≡ some (page, phys)
  pub then_page : Page
  pub filled : s'.mem ≡ fill_page out page then_page s.mem
  pub entries :
      (q : ℕ)
      → entry s'.paging q ≡ (
          if q / pg_len == pga / pg_len
          then pgemk page then_page.prot then_page.noshare false
          else entry s.paging q)

-- The last steps, from the state where the page has its owner.
first_access-end :
    (out : Outside) (p pga pe pe_w : ℕ) (pg : Page) (s s4 s' : Vm)
    → has_bit (s.paging.dir (dir_index pga)) pg_present ≡ true
    → pe_w ≡ (if has_bit pe pg_writeable then pe else pe + 2 ^ pg_writeable)
    → map_page pga pe_w s ≡ some s4
    → (if not (pg.conn == 0) && ltb pg_len (pg.start + pg.len)
        then none
        else if not (has_bit pe pg_writeable)
        then map_page pga pe (record s4 { mem = fill_page out p pg s4.mem })
        else some (record s4 { mem = fill_page out p pg s4.mem }))
      ≡ some s'
    → (s'.mem ≡ fill_page out p pg s.mem)
      × ((q : ℕ)
          → entry s'.paging q ≡ (if q / pg_len == pga / pg_len then pe else entry s.paging q))
first_access-end out p pga pe pe_w pg s s4 s' d w e1 e2 =
    let v = map_page-Mapped pga pe_w s s4 d e1 in
    let s5 : Vm = record s4 { mem = fill_page out p pg s4.mem } in
    elim (Bool-cases (not (pg.conn == 0) && ltb pg_len (pg.start + pg.len))) [
      | inl c ↦ absurd (ground arith)
      | inr c ↦ elim (Bool-cases (has_bit pe pg_writeable)) [
        | inl c2 ↦
            let same : s5 ≡ s' = ground arith in
            let word : pe_w ≡ pe = ground arith in
            subst
              (λ (t : Vm).
                (t.mem ≡ fill_page out p pg s.mem)
                × ((q : ℕ)
                    → entry t.paging q
                      ≡ (if q / pg_len == pga / pg_len then pe else entry s.paging q)))
              same
              (
                ap (fill_page out p pg) v.mem,
                subst
                    (λ x.
                      (q : ℕ)
                      → entry s4.paging q
                        ≡ (if q / pg_len == pga / pg_len then x else entry s.paging q))
                    word v.entries,
              )
        | inr c2 ↦
            let d5 : has_bit (s5.paging.dir (dir_index pga)) pg_present ≡ true = rw v.dir d in
            let u = map_page-Mapped pga pe s5 s' d5 (ground arith) in
            (
              u.mem ∙ ap (fill_page out p pg) v.mem,
              λ q. let x = u.entries q in let y = v.entries q in (ground arith),
            )
      ]
    ]

-- What the last steps leave.
abbrev Filled : Outside → ℕ → ℕ → Page → Vm → Vm → Type 0
Filled out pga p pg s s' =
    (s'.mem ≡ fill_page out p pg s.mem)
    × ((q : ℕ)
        → entry s'.paging q ≡ (
            if q / pg_len == pga / pg_len
            then pgemk p pg.prot pg.noshare false
            else entry s.paging q))

fill_mapped-Filled :
    (out : Outside) (pga p : ℕ) (pg : Page) (s s' : Vm)
    → has_bit (s.paging.dir (dir_index pga)) pg_present ≡ true
    → fill_mapped out pga p pg s ≡ some s'
    → Filled out pga p pg s s'
unfolding fill_mapped
fill_mapped-Filled out pga p pg s s' d e =
    let pe = pgemk p pg.prot pg.noshare false in
    let pe_w = (if has_bit pe pg_writeable then pe else pe + 2 ^ pg_writeable) in
    elim (Option-cases (map_page pga pe_w s)) [
      | inl c ↦ absurd (ground arith)
      | inr (s4, c4) ↦
          let rest =
            (if not (pg.conn == 0) && ltb pg_len (pg.start + pg.len)
              then none
              else if not (has_bit pe pg_writeable)
              then map_page pga pe (record s4 { mem = fill_page out p pg s4.mem })
              else some (record s4 { mem = fill_page out p pg s4.mem })) in
          let e2 : rest ≡ some s' = ground arith in
          first_access-end out p pga pe pe_w pg s s4 s' d refl c4 e2
    ]

pub first_access-Accessed :
    (out : Outside) (pga a : ℕ) (s s' : Vm)
    → has_bit (s.paging.dir (dir_index pga)) pg_present ≡ true
    → first_access out pga a s ≡ some s'
    → Accessed out pga a s s'
unfolding first_access
first_access-Accessed out pga a s s' d e = elim (Option-cases (alloc s)) [
  | inl c ↦ absurd (ground arith)
  | inr ((p, s1), c1) ↦
      let (k1, (m, got)) = alloc-Keeps p s s1 c1 in
      let s2 = with_place a p s1 in
      elim (Option-cases (set_owner p a s2)) [
        | inl c ↦ absurd (ground arith)
        | inr (s3, c3) ↦
            let k3 = set_owner-Keeps p a s2 s3 c3 in
            let k : Keeps s s3 =
              Keeps-trans s s1 s3 k1 (record { dir = k3.dir; tables = k3.tables; mem = k3.mem }) in
            let d3 : has_bit (s3.paging.dir (dir_index pga)) pg_present ≡ true = rw k.dir d in
            let (f, es) = fill_mapped-Filled out pga p (s3.pages a) s3 s' d3 (ground arith) in
            record {
              page = p;
              phys = m;
              got = got;
              then_page = s3.pages a;
              filled = f ∙ ap (fill_page out p (s3.pages a)) k.mem;
              entries = λ q. let x = es q in let y = Keeps-entry s s3 q k in (ground arith);
            }
      ]
]
