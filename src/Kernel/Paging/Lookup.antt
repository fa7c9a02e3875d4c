-- ===== src/Kernel/Paging/Lookup.antt =====
-- The two levels as one map from pages to entries.
use yax.Base.{
  suc, ◌<◌, ◌∙◌, ℕ_discrete, ℕ, zero, ◌/◌, ◌%◌, ◌≡◌, refl, true, false, some, arith, if◌then◌else◌,
  ◌==◌, ◌&&◌, has_bit, Bool-cases, inl, inr,
}
use yax.Kernel.Phys.{pg_len, Phys, ppgalloc}
use yax.Kernel.Paging.{
  addr_of, store, Pmap, clear_upto, pgunmap, Paging, dir_index, table_index, set_entry, pg_present,
}

-- The entry of the page of an address, 0 where there is no table.
abbrev pub entry : Paging → ℕ → ℕ
entry s q =
    if has_bit (s.dir (dir_index q)) pg_present then s.tables (dir_index q) (table_index q) else 0

-- Free pages begin at multiples of the page size.
abbrev pub AlignedAlloc : Phys → Type 0
AlignedAlloc m = (p : ℕ) (m' : Phys) → ppgalloc m ≡ some (p, m') → p % pg_len ≡ 0

same_place :
    (p q : ℕ)
    → ((dir_index q == dir_index p) && (table_index q == table_index p))
      ≡ (q / pg_len == p / pg_len)
same_place p q = ground arith

pub set_entry-entry :
    (pg page q : ℕ) (s : Paging)
    → has_bit (s.dir (dir_index pg)) pg_present ≡ true
    → let s' = record s { tables = set_entry s.tables (dir_index pg) (table_index pg) page } in
      entry s' q ≡ (if q / pg_len == pg / pg_len then page else entry s q)
set_entry-entry pg page q s there = elim (ℕ_discrete (dir_index q) (dir_index pg)) [
  | yes e ↦ rw (← same_place pg q) (rw e (rw there (ground arith)))
  | no e ↦
      let other : (q / pg_len == pg / pg_len) ≡ false = ground arith in
      let other' : (dir_index q == dir_index pg) ≡ false = ground arith in rw (other, other') refl
]

-- The entry that the hardware finds. The last entry of the directory leads to the directory itself, so
-- that the last four megabytes are a window in which the tables are pages, with the directory's entries.
abbrev pub seen : Paging → ℕ → ℕ
seen s q = if dir_index q == 1023 then s.dir (table_index q) else entry s q

clear_upto-zero : (n j : ℕ) (t : ℕ → ℕ) → clear_upto n t ≡ true → j < n → t j ≡ 0
unfolding clear_upto
clear_upto-zero zero j t h p = absurd (omega arith)
clear_upto-zero (suc n) j t h p = ground (arith, clear_upto-zero n j t)

-- Taking a table down that has no entry changes no page.
drop_table-entry :
    (i q : ℕ) (s : Paging)
    → clear_upto 1024 (s.tables i) ≡ true
    → entry (record s { dir = store s.dir i 0 }) q ≡ entry s q
drop_table-entry i q s h =
    ground (arith, clear_upto-zero 1024 (table_index q) (s.tables i) h (omega arith))

-- `pgunmap` gives the page that was mapped, or 0 where none was, clears the entry of a page that was
-- present, and leaves the entries of all others as they were, also where it takes a table down.
pub pgunmap-entry :
    (owners : Pmap) (pg q : ℕ) (s : Paging)
    → let (p, up, s') = pgunmap owners pg s in
      let there = has_bit (entry s pg) pg_present in
      (p ≡ (if there then addr_of (entry s pg) else 0))
      × (entry s' q ≡ (if there && (q / pg_len == pg / pg_len) then 0 else entry s q))
unfolding pgunmap
pgunmap-entry owners pg q s = elim (Bool-cases (has_bit (s.dir (dir_index pg)) pg_present)) [
  | inl there ↦
      let i = dir_index pg in
      let pe = s.tables i (table_index pg) in
      elim (Bool-cases (has_bit pe pg_present)) [
        | inl here ↦
            let s1 : Paging = record s { tables = set_entry s.tables i (table_index pg) 0 } in
            let cleared = set_entry-entry pg 0 q s there in
            elim (Bool-cases (clear_upto 1024 (s1.tables i))) [
              | inl c ↦ rw there (rw here (rw c (refl, drop_table-entry i q s1 c ∙ cleared)))
              | inr c ↦ rw there (rw here (rw c (refl, cleared)))
            ]
        | inr here ↦ elim (Bool-cases (clear_upto 1024 (s.tables i))) [
          | inl c ↦ rw there (rw here (rw c (refl, drop_table-entry i q s c)))
          | inr c ↦ rw there (rw here (rw c (refl, refl)))
        ]
      ]
  | inr gone ↦ rw gone (refl, refl)
]
