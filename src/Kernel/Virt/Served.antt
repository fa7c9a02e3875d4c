-- ===== src/Kernel/Virt/Served.antt =====
-- src/mem/virt.c: the page tables and the memory after a fault is served.
use yax.Base.{
  ap, ◌+◌, ◌<◌, false, not, ◌&&◌, ℕ, ◌/◌, ◌%◌, ◌<◌, ◌≡◌, ◌≢◌, Bool, true, some, arith, ◌==◌,
  if◌then◌else◌, has_bit, refl, Bool-cases, inl, inr, Option-cases, subst, ◌⊎◌, ◌∙◌,
}
use yax.Codas.Ref.{Unref, unref, alive, freed, fault}
use yax.Kernel.Phys.{Phys, pg_len, no_phys_pg, ppgalloc}
use yax.Kernel.Pmap.{pmapget, pmapset}
use yax.Kernel.Paging.{dir_index, table_index, set_entry, addr_of, pg_present, pg_writeable}
use yax.Kernel.Paging.Lookup.{AlignedAlloc, entry, set_entry-entry}
use yax.Kernel.Virt.{
  Vm, Outside, alloc, set_page, pagemk, set_owner, ref_page, unref_page, freepage, with_phys,
}
use yax.Kernel.Virt.Ensure.{copy_page, own_entry, copy_on_write}

-- The tables and the memory are the same, whatever becomes of the pages.
pub record Keeps (s s' : Vm) : Type 0 where
  pub dir : s'.paging.dir ≡ s.paging.dir
  pub tables : s'.paging.tables ≡ s.paging.tables
  pub mem : s'.mem ≡ s.mem

pub Keeps-trans : (s t u : Vm) → Keeps s t → Keeps t u → Keeps s u
Keeps-trans s t u a b = record {
  dir = b.dir ∙ a.dir;
  tables = b.tables ∙ a.tables;
  mem = b.mem ∙ a.mem;
}

freepage-Keeps : (a : ℕ) (s : Vm) → Keeps s (freepage a s)
unfolding freepage
freepage-Keeps a s = elim (Bool-cases ((s.pages a).p == no_phys_pg)) [
  | inl e ↦ record { dir = rw e refl; tables = rw e refl; mem = rw e refl }
  | inr e ↦ record { dir = rw e refl; tables = rw e refl; mem = rw e refl }
]

Unref-cases : (u : Unref) → ((n : ℕ) × (u ≡ alive n)) ⊎ (u ≡ freed) ⊎ (u ≡ fault)
Unref-cases (alive n) = inl (n, refl)
Unref-cases freed = inr (inl refl)
Unref-cases fault = inr (inr refl)

pub unref_page-Keeps : (a : ℕ) (s s' : Vm) → unref_page a s ≡ some s' → Keeps s s'
unfolding unref_page
unref_page-Keeps a s s' e = elim (Unref-cases (unref (s.pages a).rc)) [
  | inl (n, c) ↦
      let t : Vm = record s { pages = set_page s.pages a (record (s.pages a) { rc = n }) } in
      let same : t ≡ s' = ground arith in
      subst (Keeps s) same (record { dir = refl; tables = refl; mem = refl })
  | inr (inl c) ↦
      let same : freepage a s ≡ s' = ground arith in subst (Keeps s) same (freepage-Keeps a s)
  | inr (inr c) ↦ absurd (ground arith)
]

put_owner-Keeps :
    (p a : ℕ) (s : Vm)
    → let s2 : Vm = record s { owners = (pmapset s.owners p a).0 } in
      Keeps s (if a == 0 then s2 else ref_page a s2)
unfolding ref_page
put_owner-Keeps p a s = elim (Bool-cases (a == 0)) [
  | inl c ↦ rw c (record { dir = refl; tables = refl; mem = refl })
  | inr c ↦ rw c (record { dir = refl; tables = refl; mem = refl })
]

pub set_owner-Keeps : (p a : ℕ) (s s' : Vm) → set_owner p a s ≡ some s' → Keeps s s'
unfolding set_owner
set_owner-Keeps p a s s' e =
    let old = pmapget s.owners p in
    elim (Bool-cases (not (a == 0) && not (old == 0))) [
      | inr c ↦
          let t : Vm = record s { owners = (pmapset s.owners p a).0 } in
          let same : (if a == 0 then t else ref_page a t) ≡ s' = ground arith in
          subst (Keeps s) same (put_owner-Keeps p a s)
      | inl c ↦ elim (Option-cases (unref_page old s)) [
        | inl n ↦ absurd (ground arith)
        | inr (s1, d) ↦
            let t : Vm = record s1 { owners = (pmapset s1.owners p a).0 } in
            let same : (if a == 0 then t else ref_page a t) ≡ s' = ground arith in
            Keeps-trans s s1 s' (unref_page-Keeps old s s1 d)
              (subst (Keeps s1) same (put_owner-Keeps p a s1))
      ]
    ]

pub alloc-Keeps :
    (p : ℕ) (s s' : Vm)
    → alloc s ≡ some (p, s')
    → Keeps s s' × ((m : Phys) × (ppgalloc s.paging.phys ≡ some (p, m)))
alloc-Keeps p s s' e = elim (Option-cases (ppgalloc s.paging.phys)) [
  | inl c ↦ absurd (ground arith)
  | inr ((q, m), c) ↦
      let same : with_phys m s ≡ s' = ground arith in
      let page : q ≡ p = ground arith in
      (
        subst (Keeps s) same (record { dir = refl; tables = refl; mem = refl }),
        (m, subst (λ x. ppgalloc s.paging.phys ≡ some (x, m)) page c),
      )
]

pagemk-Keeps :
    (out : Outside) (pp prot a : ℕ) (ns : Bool) (s s' : Vm)
    → pagemk out pp prot ns s ≡ some (a, s')
    → Keeps s s'
unfolding pagemk
pagemk-Keeps out pp prot a ns s s' e = record {
  dir = ground arith;
  tables = ground arith;
  mem = ground arith;
}

abbrev pub shared_written : ℕ → ℕ → ℕ → Vm → Vm
shared_written pga pe p s = record s {
  paging = record s.paging {
    tables = set_entry s.paging.tables (dir_index pga) (table_index pga) (own_entry pe p);
  };
  mem = copy_page p (addr_of pe) s.mem;
}

-- The steps of a write to a shared page.
pub copy_on_write-steps :
    (out : Outside) (pga pe : ℕ) (s s' : Vm)
    → copy_on_write out pga pe s ≡ some s'
    → (p : ℕ) × (m : Phys) × (t : Vm) × (ppgalloc s.paging.phys ≡ some (p, m))
      × Keeps s t
      × (s' ≡ shared_written pga pe p t)
unfolding copy_on_write
copy_on_write-steps out pga pe s s' e =
    let pg = s.pages (pmapget s.owners (addr_of pe)) in
    elim (Option-cases (alloc s)) [
      | inl c ↦ absurd (ground arith)
      | inr ((p, s1), c1) ↦ elim (Option-cases (pagemk out p pg.prot pg.noshare s1)) [
        | inl c ↦ absurd (ground arith)
        | inr ((a, s2), c2) ↦ elim (Option-cases (set_owner p a s2)) [
          | inl c ↦ absurd (ground arith)
          | inr (s3, c3) ↦
              let (k1, (m, got)) = alloc-Keeps p s s1 c1 in
              let k2 = pagemk-Keeps out p pg.prot a pg.noshare s1 s2 c2 in
              let k4 = set_owner-Keeps p a s2 s3 c3 in
              (p, m, s3, got, Keeps-trans s s1 s3 k1 (Keeps-trans s1 s2 s3 k2 k4), ground arith)
        ]
      ]
    ]

-- What is served: the page is there, a write to a page that was there is allowed, and the entries of
-- the other pages are as they were.
pub record Served (pga : ℕ) (w : Bool) (s s' : Vm) : Type 0 where
  pub there : has_bit (entry s'.paging pga) pg_present ≡ true
  pub writeable :
      w ≡ true
      → has_bit (entry s.paging pga) pg_present ≡ true
      → has_bit (entry s'.paging pga) pg_writeable ≡ true
  pub others : (q : ℕ) → q / pg_len ≢ pga / pg_len → entry s'.paging q ≡ entry s.paging q

pub own_entry-bits :
    (pe p : ℕ)
    → p % pg_len ≡ 0
    → has_bit pe pg_present ≡ true
    → (addr_of (own_entry pe p) ≡ p)
      × (has_bit (own_entry pe p) pg_present ≡ true)
      × (has_bit (own_entry pe p) pg_writeable ≡ true)
own_entry-bits pe p a h =
    let low : pe % pg_len < 4096 = omega arith in (ground arith, ground arith, ground arith)

-- The entry after a write to a shared page.
shared_written-entry :
    (pga pe p q : ℕ) (t : Vm)
    → has_bit (t.paging.dir (dir_index pga)) pg_present ≡ true
    → entry (shared_written pga pe p t).paging q
      ≡ (if q / pg_len == pga / pg_len then own_entry pe p else entry t.paging q)
shared_written-entry pga pe p q t h = set_entry-entry pga (own_entry pe p) q t.paging h

pub Keeps-entry : (s t : Vm) (q : ℕ) → Keeps s t → entry t.paging q ≡ entry s.paging q
Keeps-entry s t q k = rw (k.dir, k.tables) refl

pub shared_written-Served :
    (out : Outside) (pga p : ℕ) (m : Phys) (w : Bool) (s t : Vm)
    → AlignedAlloc s.paging.phys
    → ppgalloc s.paging.phys ≡ some (p, m)
    → has_bit (s.paging.dir (dir_index pga)) pg_present ≡ true
    → has_bit (entry s.paging pga) pg_present ≡ true
    → Keeps s t
    → Served pga w s (shared_written pga (entry s.paging pga) p t)
shared_written-Served out pga p m w s t al got d h k =
    let pe = entry s.paging pga in
    let d' : has_bit (t.paging.dir (dir_index pga)) pg_present ≡ true = rw k.dir d in
    let here : entry (shared_written pga pe p t).paging pga ≡ own_entry pe p =
      shared_written-entry pga pe p pga t d' ∙ (ground arith) in
    let (x, y, z) = own_entry-bits pe p (al p m got) h in
    record {
      there = rw here y;
      writeable = λ e f. rw here z;
      others = λ q n.
          let other : (q / pg_len == pga / pg_len) ≡ false = ground arith in
          shared_written-entry pga pe p q t d' ∙ (rw other (Keeps-entry s t q k));
    }

-- Where free pages begin at multiples of the page size and the page is there, a write to it that comes
-- to an end gives the process the page that the allocator had to give, may be written, and has the
-- bytes of the shared page; that keeps them, if the page that was allocated is another one.
pub copy_on_write-bytes :
    (out : Outside) (pga k : ℕ) (s s' : Vm)
    → AlignedAlloc s.paging.phys
    → has_bit (s.paging.dir (dir_index pga)) pg_present ≡ true
    → has_bit (entry s.paging pga) pg_present ≡ true
    → copy_on_write out pga (entry s.paging pga) s ≡ some s'
    → k < pg_len
    → let old = addr_of (entry s.paging pga) in
      let new = addr_of (entry s'.paging pga) in
      ((m : Phys) × (ppgalloc s.paging.phys ≡ some (new, m)))
      × (has_bit (entry s'.paging pga) pg_writeable ≡ true)
      × (s'.mem (new + k) ≡ s.mem (old + k))
      × (new ≢ old → s'.mem (old + k) ≡ s.mem (old + k))
copy_on_write-bytes out pga k s s' al d h e l =
    let pe = entry s.paging pga in
    let (p, m, t, got, kept, same) = copy_on_write-steps out pga pe s s' e in
    let d' : has_bit (t.paging.dir (dir_index pga)) pg_present ≡ true = rw kept.dir d in
    let (x, y, z) = own_entry-bits pe p (al p m got) h in
    let at : addr_of (entry (shared_written pga pe p t).paging pga) ≡ p =
      ap addr_of (shared_written-entry pga pe p pga t d') ∙ (ground arith) in
    let aligned : p % pg_len ≡ 0 = al p m got in
    let here : entry (shared_written pga pe p t).paging pga ≡ own_entry pe p =
      shared_written-entry pga pe p pga t d' ∙ (ground arith) in
    let writeable : has_bit (entry (shared_written pga pe p t).paging pga) pg_writeable ≡ true =
      rw here z in
    rw same (
      (m, rw at got),
      writeable,
      rw at (rw kept.mem (ground arith)),
      rw at (rw kept.mem (λ n. ground arith)),
    )
