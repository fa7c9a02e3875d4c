-- ===== src/Kernel/Paging/Find.antt =====
-- What `pgfind` finds.
use yax.Base.{
  has_bit, sym, ◌∙◌, ap, subst, ℕ, zero, suc, ◌+◌, ◌-◌, ◌*◌, ◌/◌, ◌%◌, ◌^◌, ◌<◌, ◌≤◌, ◌≡◌, dec_lt,
  ◌⊎◌, refl, Bool, true, false, Option, none, some, arith, if◌then◌else◌, ltb, leb, Bool-cases, inl,
  inr,
}
use yax.Kernel.Phys.{pg_len}
use yax.Kernel.Paging.Lookup.{entry}
use yax.Kernel.Paging.{
  pg_present, dir_index, Paging, is_present, scan, find_from, pgfind, virt, spg,
}

-- Whether the page of an address is present.
abbrev pub in_use : Paging → ℕ → Bool
in_use s i = has_bit (entry s i) pg_present

is_present-entry : (s : Paging) (i : ℕ) → is_present s i ≡ in_use s i
unfolding is_present
is_present-entry s i = elim (Bool-cases (has_bit (s.dir (dir_index i)) pg_present)) [
  | inl c ↦ rw c refl
  | inr c ↦ rw c refl
]

-- No page of an interval from `i` on is present.
abbrev pub AllFree : Paging → ℕ → ℕ → Type 0
AllFree s i len = (n : ℕ) → n * pg_len < len → in_use s (i + n * pg_len) ≡ false

-- The inner loop ends, at a page that is in use, or with all of them free.
AllFree-cons :
    (s : Paging) (i j : ℕ)
    → in_use s i ≡ false
    → AllFree s (i + pg_len) (j - (i + pg_len))
    → AllFree s i (j - i)
AllFree-cons s i j h f zero p = let same : i + 0 * pg_len ≡ i = omega arith in rw same h
AllFree-cons s i j h f (suc n) p =
    let same : i + suc n * pg_len ≡ i + pg_len + n * pg_len = omega arith in
    rw same (f n (omega arith))

-- Where the inner loop ends: with all pages up to `j` free, or at a page in use, `a` pages on.
abbrev pub ScanEnds : Option (Option ℕ) → Paging → ℕ → ℕ → Type 0
ScanEnds r s i j =
    (r ≡ some none) × AllFree s i (j - i)
    ⊎ ((a : ℕ) × (r ≡ some (some (i + a * pg_len)))
        × (in_use s (i + a * pg_len) ≡ true)
        × (i + a * pg_len < j))

scan-step :
    (k : ℕ) (s : Paging) (i j : ℕ)
    → (i < j → ScanEnds (scan k s (i + pg_len) j) s (i + pg_len) j)
    → ScanEnds (scan (suc k) s i j) s i j
unfolding scan
scan-step k s i j rest = rw (is_present-entry s i) (elim (Bool-cases (ltb i j)) [
  | inr done ↦ inl (ground arith, (λ n p. absurd (ground arith)))
  | inl more ↦ elim (Bool-cases (in_use s i)) [
    | inl used ↦
        let same : i + 0 * pg_len ≡ i = omega arith in
        inr (0, rw same (rw more (rw used refl)), rw same used, rw same (ground arith))
    | inr free ↦ elim (rest (ground arith)) [
      | inl (e, f) ↦ inl (ground arith, AllFree-cons s i j free f)
      | inr (a, e, u, l) ↦
          let same : i + pg_len + a * pg_len ≡ i + suc a * pg_len = omega arith in
          inr (suc a, rw more (rw free (rw (← same) e)), rw (← same) u, rw (← same) l)
    ]
  ]
])

scan-ends :
    (k : ℕ) (s : Paging) (i j : ℕ) → j < i + k * pg_len → ScanEnds (scan (suc k) s i j) s i j
scan-ends zero s i j h = scan-step zero s i j (λ p. absurd (omega arith))
scan-ends (suc k) s i j h =
    scan-step (suc k) s i j (λ p. scan-ends k s (i + pg_len) j (omega arith))

-- `r` is the first of the places `i`, `i + PGLEN`, … from which `len` bytes are free and end below
-- the limit, or is 0 and there is none.
pub record FirstFit (s : Paging) (i limit len r : ℕ) : Type 0 where
  pub fits : (r ≡ 0) ⊎ (i ≤ r) × (r + len < limit) × AllFree s r len
  pub first :
      (n : ℕ)
      → i + n * pg_len + len < limit
      → (r ≡ 0) ⊎ (i + n * pg_len < r)
      → ¬ AllFree s (i + n * pg_len) len

-- A page in use `a` pages on leaves no place up to there.
FirstFit-skip :
    (s : Paging) (i a limit len r : ℕ)
    → in_use s (i + a * pg_len) ≡ true
    → i + a * pg_len < i + len
    → FirstFit s (i + a * pg_len + pg_len) limit len r
    → FirstFit s i limit len r
FirstFit-skip s i a limit len r u l v = record {
  fits = elim v.fits [ inl z ↦ inl z | inr (p, q, f) ↦ inr (omega arith, q, f) ];
  first = λ n p c f. elim (dec_lt a n) [
    | yes h ↦
        let same : i + a * pg_len + pg_len + (n - suc a) * pg_len ≡ i + n * pg_len = omega arith in
        v.first (n - suc a) (rw same p) (rw same c) (rw same f)
    | no h ↦
        let same : i + n * pg_len + (a - n) * pg_len ≡ i + a * pg_len = omega arith in
        let free = f (a - n) (omega arith) in
        let free' : in_use s (i + a * pg_len) ≡ false = rw (← same) free in ground arith
  ];
}

-- There is no place from the limit on, and none that ends at it or behind it.
FirstFit-none : (s : Paging) (i limit len : ℕ) → limit ≤ i + len → FirstFit s i limit len 0
FirstFit-none s i limit len h = record { fits = inl refl; first = λ n p c f. omega arith }

FirstFit-here :
    (s : Paging) (i limit len : ℕ)
    → 0 < i
    → i + len < limit
    → AllFree s i len
    → FirstFit s i limit len i
FirstFit-here s i limit len l h f = record {
  fits = inr (omega arith, h, f);
  first = λ n p c g. elim c [ inl z ↦ omega arith | inr q ↦ omega arith ];
}

-- The result of the search from `i` on.
abbrev pub Finds : Option ℕ → Paging → ℕ → ℕ → ℕ → Type 0
Finds res s i limit len = (r : ℕ) × (res ≡ some r) × FirstFit s i limit len r

-- One round of the outer loop, from where the inner one ends.
find_from-round :
    (k m : ℕ) (s : Paging) (i limit len : ℕ)
    → 0 < i
    → i + len < limit
    → limit ≤ 2 ^ 32
    → ScanEnds (scan m s i (i + len)) s i (i + len)
    → ((a : ℕ)
        → Finds
            (find_from k m s (i + a * pg_len + pg_len) limit len)
            s
            (i + a * pg_len + pg_len)
            limit
            len)
    → Finds (find_from (suc k) m s i limit len) s i limit len
unfolding find_from
find_from-round k m s i limit len z room b ends rest =
    let same : (i + len) % 2 ^ 32 ≡ i + len = omega arith in
    let here : ltb i limit ≡ true = ground arith in
    let below : leb limit (i + len) ≡ false = ground arith in
    let back : (i + len + 2 ^ 32 - len) % 2 ^ 32 ≡ i = omega arith in
    elim ends [
      | inl (e, f) ↦
          let size : i + len - i ≡ len = omega arith in
          (
            i,
            rw here (
                rw same
                  (rw below (rw e (ap some (ap (λ x. (x + 2 ^ 32 - len) % 2 ^ 32) same ∙ back))))),
            FirstFit-here s i limit len z room (subst (AllFree s i) size f),
          )
      | inr (a, e, u, l) ↦
          let (r, c, v) = rest a in
          (r, rw same (rw here (rw below (rw e c))), FirstFit-skip s i a limit len r u l v)
    ]

find_from-full :
    (k m : ℕ) (s : Paging) (i limit len : ℕ)
    → limit ≤ i + len
    → limit + len ≤ 2 ^ 32
    → Finds (find_from (suc k) m s i limit len) s i limit len
unfolding find_from
find_from-full k m s i limit len h b = (0, ground arith, FirstFit-none s i limit len h)

-- The outer loop comes to its end, with the first place that fits.
find_from-FirstFit :
    (k m : ℕ) (s : Paging) (i limit len : ℕ)
    → 0 < i
    → limit ≤ i + k * pg_len
    → len < m * pg_len
    → limit + len ≤ 2 ^ 32
    → Finds (find_from (suc k) (suc m) s i limit len) s i limit len
find_from-FirstFit zero m s i limit len z h l b =
    find_from-full zero (suc m) s i limit len (omega arith) b
find_from-FirstFit (suc k) m s i limit len z h l b = elim (dec_lt (i + len) limit) [
  | no full ↦ find_from-full (suc k) (suc m) s i limit len (omega arith) b
  | yes room ↦
      find_from-round (suc k) (suc m) s i limit len z room (omega arith)
        (scan-ends m s i (i + len) (omega arith))
        (λ a.
          find_from-FirstFit k m s (i + a * pg_len + pg_len) limit len (omega arith) (omega arith) l
            b)
]

-- `pgfind` comes to an end, and what it gives is the first run of pages none of which is present, in
-- steps of a page from the beginning of the process's or of the kernel's space, that lies below the
-- limit; it gives 0 only where there is none. A page that is to be given memory at its first access is
-- not present. The length is such that no address wraps, and the fuel is at least a round for
-- each page of the address space.
pub pgfind-FirstFit :
    (fuel len : ℕ) (user : Bool) (s : Paging)
    → 2 ^ 20 < fuel
    → (if user then virt else spg) + len ≤ 2 ^ 32
    → Finds
        (pgfind fuel len user s)
        s
        (if user then pg_len else virt)
        (if user then virt else spg)
        len
unfolding pgfind
pgfind-FirstFit zero len user s p b = absurd (omega arith)
pgfind-FirstFit (suc k) len user s p b =
    let size : len / pg_len + 2 ≡ suc (len / pg_len + 1) = omega arith in
    let i = (if user then pg_len else virt) in
    let limit = (if user then virt else spg) in
    subst (λ m. Finds (find_from (suc k) m s i limit len) s i limit len) (sym size)
      (find_from-FirstFit k (len / pg_len + 1) s i limit len (ground arith) (ground arith)
        (omega arith) b)
