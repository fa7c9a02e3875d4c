-- ===== src/Kernel/Virt/Fork.antt =====
-- src/mem/virt.c: the entries of both processes after `vpgcopy`.
use yax.Base.{
  ℕ, zero, suc, ◌+◌, ◌/◌, ◌%◌, ◌^◌, ◌<◌, ◌≡◌, Bool, true, false, not, some, ◌&&◌, ◌||◌, ltb, arith,
  ◌==◌, if◌then◌else◌, has_bit, refl, Bool-cases, inl, inr, Option-cases, subst, ap, ap₂,
  ℕ_discrete, ◌∙◌, sym,
}
use yax.Kernel.Phys.{pg_len, store}
use yax.Kernel.Paging.{
  virt, set_entry, addr_of, pg_present, pg_writeable, pg_noshare, pg_phys, pg_notmapped,
}
use yax.Kernel.Virt.{Vm, Outside, alloc, ref_page}
use yax.Kernel.Virt.Served.{Keeps, alloc-Keeps}
use yax.Kernel.Virt.Copy.{
  Child, vpgnew, parent_entry, child_entry, ref_entry, copy_entries, copy_table, copy_tables,
  vpgcopy, is_private, cow_entry,
}

ref_entry-Keeps : (pe : ℕ) (s : Vm) → Keeps s (ref_entry pe s)
unfolding ref_page
ref_entry-Keeps pe s = record { dir = ground arith; tables = ground arith; mem = ground arith }

-- The entries of table `i` below `n` are copied, and the others are as they were.
pub record Copied (memshare : Bool) (i n : ℕ) (c : Child) (s : Vm) (c' : Child) (s' : Vm)
    : Type 0 where
  pub dir : s'.paging.dir ≡ s.paging.dir
  pub parent :
      (k l : ℕ)
      → s'.paging.tables k l ≡ (
          if (k == i) && ltb l n
          then parent_entry memshare (s.paging.tables k l)
          else s.paging.tables k l)
  pub child :
      (k l : ℕ)
      → c'.tables k l
        ≡ (if (k == i) && ltb l n then child_entry memshare (s.paging.tables k l) else c.tables k l)

-- One more entry of a table is set.
set_entry-next :
    (i n k l new : ℕ) (f : ℕ → ℕ) (ts src old : ℕ → ℕ → ℕ)
    → (ts k l ≡ (if (k == i) && ltb l n then f (src k l) else old k l))
    → new ≡ f (src i n)
    → set_entry ts i n new k l ≡ (if (k == i) && ltb l (suc n) then f (src k l) else old k l)
set_entry-next i n k l new f ts src old x y = elim (ℕ_discrete k i) [
  | no ne ↦ ground arith
  | yes e ↦ elim (ℕ_discrete l n) [
    | no ne ↦ ground arith
    | yes e' ↦
        let here : ((k == i) && ltb l (suc n)) ≡ true = ground arith in
        let here' : ((k == i) && (l == n)) ≡ true = ground arith in
        rw here (rw here' (y ∙ ap₂ (λ a b. f (src a b)) (sym e) (sym e')))
  ]
]

pub copy_entries-Copied :
    (memshare : Bool) (i n : ℕ) (c : Child) (s : Vm)
    → let (c', s') = copy_entries memshare i n (c, s) in Copied memshare i n c s c' s'
unfolding copy_entries
copy_entries-Copied memshare i zero c s = record {
  dir = refl;
  parent = λ k l. ground arith;
  child = λ k l. ground arith;
}
copy_entries-Copied memshare i (suc n) c s =
    let (c1, s1) = copy_entries memshare i n (c, s) in
    let v = copy_entries-Copied memshare i n c s in
    let u = ref_entry-Keeps (s1.paging.tables i n) s1 in
    let here : s1.paging.tables i n ≡ s.paging.tables i n = v.parent i n ∙ (ground arith) in
    record {
      dir = u.dir ∙ v.dir;
      parent = λ k l.
          set_entry-next i n k l (parent_entry memshare (s1.paging.tables i n))
            (parent_entry memshare) (ref_entry (s1.paging.tables i n) s1).paging.tables
            s.paging.tables s.paging.tables (ap (λ f. f k l) u.tables ∙ v.parent k l)
            (ap (parent_entry memshare) here);
      child = λ k l.
          set_entry-next i n k l (child_entry memshare (s1.paging.tables i n))
            (child_entry memshare) c1.tables s.paging.tables c.tables (v.child k l)
            (ap (child_entry memshare) here);
    }

-- The tables below `n` are copied, as far as they are there.
record TablesCopied (memshare : Bool) (n : ℕ) (c : Child) (s : Vm) (c' : Child) (s' : Vm)
    : Type 0 where
  pub dir : s'.paging.dir ≡ s.paging.dir
  pub parent :
      (k l : ℕ)
      → l < 1024
      → s'.paging.tables k l ≡ (
          if ltb k n && has_bit (s.paging.dir k) pg_present
          then parent_entry memshare (s.paging.tables k l)
          else s.paging.tables k l)
  pub child :
      (k l : ℕ)
      → l < 1024
      → c'.tables k l ≡ (
          if ltb k n && has_bit (s.paging.dir k) pg_present
          then child_entry memshare (s.paging.tables k l)
          else c.tables k l)

copy_table-there :
    (memshare : Bool) (i : ℕ) (c c' : Child) (s s' : Vm)
    → has_bit (s.paging.dir i) pg_present ≡ true
    → copy_table memshare i (c, s) ≡ some (c', s')
    → (c1 : Child) × (s1 : Vm) × ((k l : ℕ) → c1.tables k l ≡ (if k == i then 0 else c.tables k l))
      × Keeps s s1
      × Copied memshare i 1024 c1 s1 c' s'
unfolding copy_table
copy_table-there memshare i c c' s s' d e = elim (Option-cases (alloc s)) [
  | inl n ↦ absurd (ground arith)
  | inr ((p, s1), a) ↦
      let c1 : Child = record c {
        dir = store c.dir i (s1.paging.dir i % pg_len + p);
        tables = (λ k l. if k == i then 0 else c.tables k l);
      } in
      let same : copy_entries memshare i 1024 (c1, s1) ≡ (c', s') = ground arith in
      (
        c1,
        s1,
        (λ k l. refl),
        (alloc-Keeps p s s1 a).0,
        subst (λ (z : Child × Vm). Copied memshare i 1024 c1 s1 z.0 z.1) same
            (copy_entries-Copied memshare i 1024 c1 s1),
      )
]

copy_table-absent :
    (memshare : Bool) (i : ℕ) (c c' : Child) (s s' : Vm)
    → has_bit (s.paging.dir i) pg_present ≡ false
    → copy_table memshare i (c, s) ≡ some (c', s')
    → (c' ≡ c) × (s' ≡ s)
unfolding copy_table
copy_table-absent memshare i c c' s s' d e = (ground arith, ground arith)

TablesCopied-absent :
    (memshare : Bool) (n : ℕ) (c : Child) (s : Vm) (c' : Child) (s' : Vm)
    → has_bit (s.paging.dir n) pg_present ≡ false
    → TablesCopied memshare n c s c' s'
    → TablesCopied memshare (suc n) c s c' s'
TablesCopied-absent memshare n c s c' s' d v =
    let same : (k : ℕ)
        → (ltb k (suc n) && has_bit (s.paging.dir k) pg_present)
          ≡ (ltb k n && has_bit (s.paging.dir k) pg_present) =
      λ k. elim (ℕ_discrete k n) [ yes e ↦ rw e (rw d (ground arith)) | no ne ↦ ground arith ] in
    record {
      dir = v.dir;
      parent = λ k l p. rw (same k) (v.parent k l p);
      child = λ k l p. rw (same k) (v.child k l p);
    }

TablesCopied-there :
    (memshare : Bool) (n : ℕ) (c : Child) (s : Vm) (c1 : Child) (s1 : Vm) (c2 : Child) (s2 : Vm)
    (c' : Child) (s' : Vm)
    → has_bit (s.paging.dir n) pg_present ≡ true
    → TablesCopied memshare n c s c1 s1
    → ((k l : ℕ) → c2.tables k l ≡ (if k == n then 0 else c1.tables k l))
    → Keeps s1 s2
    → Copied memshare n 1024 c2 s2 c' s'
    → TablesCopied memshare (suc n) c s c' s'
TablesCopied-there memshare n c s c1 s1 c2 s2 c' s' d v z k u = record {
  dir = u.dir ∙ k.dir ∙ v.dir;
  parent = λ i l p.
      let x = u.parent i l in
      let y = v.parent i l p in
      let w = ap (λ f. f i l) k.tables in
      elim (ℕ_discrete i n) [
        | yes e ↦ let d' : has_bit (s.paging.dir i) pg_present ≡ true = rw e d in ground arith
        | no ne ↦ ground arith
      ];
  child = λ i l p.
      let x = u.child i l in
      let y = v.child i l p in
      let y' = v.parent i l p in
      let w = ap (λ f. f i l) k.tables in
      let z' = z i l in
      elim (ℕ_discrete i n) [
        | yes e ↦ let d' : has_bit (s.paging.dir i) pg_present ≡ true = rw e d in ground arith
        | no ne ↦ ground arith
      ];
}

copy_tables-Copied :
    (memshare : Bool) (n : ℕ) (c c' : Child) (s s' : Vm)
    → copy_tables memshare n (c, s) ≡ some (c', s')
    → TablesCopied memshare n c s c' s'
unfolding copy_tables
copy_tables-Copied memshare zero c c' s s' e =
    let same : s' ≡ s = ground arith in
    let same_c : c' ≡ c = ground arith in
    rw (same, same_c)
      (record { dir = refl; parent = λ k l p. ground arith; child = λ k l p. ground arith })
copy_tables-Copied memshare (suc n) c c' s s' e =
    elim (Option-cases (copy_tables memshare n (c, s))) [
      | inl halt ↦ absurd (ground arith)
      | inr ((c1, s1), e1) ↦
          let v = copy_tables-Copied memshare n c c1 s s1 e1 in
          let e2 : copy_table memshare n (c1, s1) ≡ some (c', s') = ground arith in
          elim (Bool-cases (has_bit (s1.paging.dir n) pg_present)) [
            | inr d ↦
                let (x, y) = copy_table-absent memshare n c1 c' s1 s' d e2 in
                let d' : has_bit (s.paging.dir n) pg_present ≡ false = rw (← v.dir) d in
                rw (x, y) (TablesCopied-absent memshare n c s c1 s1 d' v)
            | inl d ↦
                let (c2, s2, z, k, u) = copy_table-there memshare n c1 c' s1 s' d e2 in
                let d' : has_bit (s.paging.dir n) pg_present ≡ true = rw (← v.dir) d in
                TablesCopied-there memshare n c s c1 s1 c2 s2 c' s' d' v z k u
          ]
    ]

-- What a fork makes of an entry: `pe` before it, `pp` in the present process after it, `pc` in the new
-- one.
pub record Forked (memshare : Bool) (pe pp pc : ℕ) : Type 0 where
  pub same : (has_bit pe pg_present || has_bit pe pg_notmapped) ≡ true → pc ≡ pp
  pub none : (has_bit pe pg_present || has_bit pe pg_notmapped) ≡ false → pc ≡ 0
  pub address : addr_of pp ≡ addr_of pe
  pub untouched : has_bit pe pg_present ≡ false → pp ≡ pe
  pub protected :
      memshare ≡ false
      → has_bit pe pg_present ≡ true
      → has_bit pe pg_phys ≡ false
      → has_bit pp pg_writeable ≡ false

cow_entry-bits :
    (pe : ℕ) → (addr_of (cow_entry pe) ≡ addr_of pe) × (has_bit (cow_entry pe) pg_writeable ≡ false)
cow_entry-bits pe = (ground arith, ground arith)

entries-Forked :
    (memshare : Bool) (pe : ℕ)
    → Forked memshare pe (parent_entry memshare pe) (child_entry memshare pe)
unfolding child_entry
entries-Forked memshare pe =
    let (x, y) = cow_entry-bits pe in
    record {
      same = λ h. ground arith;
      none = λ h. ground arith;
      untouched = λ h. rw h refl;
      address = elim (Bool-cases (not (has_bit pe pg_present) || has_bit pe pg_phys)) [
        | inl c ↦ rw c refl
        | inr c ↦ elim (Bool-cases (is_private memshare pe)) [
          | inl c2 ↦ rw c (rw c2 x)
          | inr c2 ↦ rw c (rw c2 refl)
        ]
      ];
      protected = λ m h p.
          let c : (not (has_bit pe pg_present) || has_bit pe pg_phys) ≡ false = rw h (rw p refl) in
          elim (Bool-cases (is_private memshare pe)) [
            | inl c2 ↦ rw c (rw c2 y)
            | inr c2 ↦
                let clear : has_bit pe pg_writeable ≡ false = ground arith in rw c (rw c2 clear)
          ];
    }

-- After a `vpgcopy` that comes to an end, at each place of a table below the kernel's that was
-- there: an entry with a page is the same in both processes, any other is clear in the new one, the
-- address is the one of before, and without shared memory no page that is present can be written in
-- either process, but for the maps of physical addresses. An entry that is not present, as that of a
-- page that was not touched yet, is left as it was: such a page is shared, and keeps its protection.
pub vpgcopy-Forked :
    (out : Outside) (memshare : Bool) (k l : ℕ) (c : Child) (s s' : Vm)
    → vpgcopy out memshare s ≡ some (c, s')
    → k < virt / pg_len / 1024
    → l < 1024
    → has_bit (s.paging.dir k) pg_present ≡ true
    → Forked memshare (s.paging.tables k l) (s'.paging.tables k l) (c.tables k l)
unfolding vpgcopy vpgnew
vpgcopy-Forked out memshare k l c s s' e p q d = elim (Option-cases (alloc s)) [
  | inl halt ↦ absurd (ground arith)
  | inr ((pdp, s1), a) ↦
      let self = pdp + 2 ^ pg_noshare + 2 ^ pg_writeable + 2 ^ pg_present in
      let new : Child = record {
        at = pdp;
        dir = store out.kernel_pd 1023 self;
        tables = λ i j. 0;
      } in
      let (kept, m) = alloc-Keeps pdp s s1 a in
      let e2 : copy_tables memshare (virt / pg_len / 1024) (new, s1) ≡ some (c, s') =
        ground arith in
      let v = copy_tables-Copied memshare (virt / pg_len / 1024) new c s1 s' e2 in
      let x = v.parent k l q in
      let y = v.child k l q in
      let w = ap (λ f. f k l) kept.tables in
      let d' : has_bit (s1.paging.dir k) pg_present ≡ true = rw kept.dir d in
      let par : s'.paging.tables k l ≡ parent_entry memshare (s.paging.tables k l) = ground arith in
      let chi : c.tables k l ≡ child_entry memshare (s.paging.tables k l) = ground arith in
      rw (par, chi) (entries-Forked memshare (s.paging.tables k l))
]
