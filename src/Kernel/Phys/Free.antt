-- ===== src/Kernel/Phys/Free.antt =====
-- The free pages as a stack: what `ppgalloc` hands out and `ppgfree` takes back.
use yax.Base.{
  none, ℕ, zero, suc, ◌+◌, ◌-◌, ◌*◌, ◌%◌, ◌^◌, ◌<◌, ◌≡◌, ◌≢◌, refl, some, List, [], ◌∷◌, ◌++◌,
  arith, NotIn, Distinct, NotIn-append_left, NotIn-append_right,
}
use yax.Kernel.Phys.{pg_len, no_phys_pg, Phys, store, ppgalloc, ppgfree}

-- The list of single pages from a root on.
abbrev pub Pages : (ℕ → ℕ) → ℕ → List ℕ → Type 0
Pages next root [] = root ≡ no_phys_pg
Pages next root (x ∷ xs) = (root ≡ x) × (x ≢ no_phys_pg) × Pages next (next x) xs

-- `n` pages from an address on.
abbrev pub run : ℕ → ℕ → List ℕ
run b zero = []
run b (suc n) = b ∷ run (b + pg_len) n

-- The pages of regions, each given by its first page and by the number of pages behind that one.
abbrev pub region_pages : List (ℕ × ℕ) → List ℕ
region_pages [] = []
region_pages (r ∷ rs) = run r.0 (suc r.1) ++ region_pages rs

-- The list of regions from a root on; each lies below the end of the address space.
abbrev pub Regions : (ℕ → ℕ) → (ℕ → ℕ) → ℕ → List (ℕ × ℕ) → Type 0
Regions next len root [] = root ≡ no_phys_pg
Regions next len root (r ∷ rs) =
    (root ≡ r.0)
    × (r.0 + suc r.1 * pg_len < no_phys_pg)
    × (len r.0 ≡ suc r.1 * pg_len)
    × Regions next len (next r.0) rs

-- The free pages in the order in which they are handed out: the single ones, then those of the
-- regions. None is free twice.
pub record IsFree (s : Phys) (fs : List ℕ) (rs : List (ℕ × ℕ)) : Type 0 where
  pub singles : Pages s.next s.rootppg fs
  pub regions : Regions s.next s.len s.rootrgn rs
  pub distinct : Distinct (fs ++ region_pages rs)

-- A store to a page outside a list does not matter to it.
Pages-outside :
    (next : ℕ → ℕ) (root p v : ℕ) (fs : List ℕ)
    → NotIn p fs
    → Pages next root fs
    → Pages (store next p v) root fs
Pages-outside next root p v [] n l = l
Pages-outside next root p v (x ∷ xs) n l =
    let same : store next p v x ≡ next x = ground arith in
    (l.0, l.1, rw same (Pages-outside next (next x) p v xs n.1 l.2))

Regions-next :
    (next len : ℕ → ℕ) (root p v : ℕ) (rs : List (ℕ × ℕ))
    → NotIn p (region_pages rs)
    → Regions next len root rs
    → Regions (store next p v) len root rs
Regions-next next len root p v [] n l = l
Regions-next next len root p v (r ∷ rs) n l =
    let same : store next p v r.0 ≡ next r.0 = ground arith in
    let rest = NotIn-append_right p (run (r.0 + pg_len) r.1) (region_pages rs) n.1 in
    (l.0, l.1, l.2, rw same (Regions-next next len (next r.0) p v rs rest l.3))

Regions-len :
    (next len : ℕ → ℕ) (root p w : ℕ) (rs : List (ℕ × ℕ))
    → NotIn p (region_pages rs)
    → Regions next len root rs
    → Regions next (store len p w) root rs
Regions-len next len root p w [] n l = l
Regions-len next len root p w (r ∷ rs) n l =
    let size : store len p w r.0 ≡ suc r.1 * pg_len = ground arith in
    let rest = NotIn-append_right p (run (r.0 + pg_len) r.1) (region_pages rs) n.1 in
    (l.0, l.1, size, Regions-len next len (next r.0) p w rs rest l.3)

-- A page that is not free and is freed goes in front of the free ones, each of which stays free
-- once.
pub ppgfree-IsFree :
    (p : ℕ) (s : Phys) (fs : List ℕ) (rs : List (ℕ × ℕ))
    → IsFree s fs rs
    → p ≢ no_phys_pg
    → NotIn p (fs ++ region_pages rs)
    → IsFree (ppgfree p s) (p ∷ fs) rs
unfolding ppgfree
ppgfree-IsFree p s fs rs v h n =
    let singles = NotIn-append_left p fs (region_pages rs) n in
    let link : store s.next p s.rootppg p ≡ s.rootppg = ground arith in
    record {
      singles =
          (refl, h, rw link (Pages-outside s.next s.rootppg p s.rootppg fs singles v.singles));
      regions =
          Regions-next s.next s.len s.rootrgn p s.rootppg rs
            (NotIn-append_right p fs (region_pages rs) n) v.regions;
      distinct = (n, v.distinct);
    }

alloc-single :
    (s : Phys) (x : ℕ) (fs : List ℕ) (rs : List (ℕ × ℕ))
    → IsFree s (x ∷ fs) rs
    → (s' : Phys) × (ppgalloc s ≡ some (x, s')) × IsFree s' fs rs
unfolding ppgalloc
alloc-single s x fs rs v =
    let (e, h, l) = v.singles in
    (
      record s { rootppg = s.next x },
      ground arith,
      record { singles = l; regions = v.regions; distinct = v.distinct.1 },
    )

alloc-last :
    (s : Phys) (b : ℕ) (rs : List (ℕ × ℕ))
    → IsFree s [] ((b, 0) ∷ rs)
    → (s' : Phys) × (ppgalloc s ≡ some (b, s')) × IsFree s' [] rs
unfolding ppgalloc
alloc-last s b rs v =
    let (e, h, k, l) = v.regions in
    (
      record s { rootrgn = s.next b },
      ground arith,
      record { singles = v.singles; regions = l; distinct = v.distinct.1 },
    )

alloc-cut :
    (s : Phys) (b n : ℕ) (rs : List (ℕ × ℕ))
    → IsFree s [] ((b, suc n) ∷ rs)
    → (s' : Phys) × (ppgalloc s ≡ some (b, s')) × IsFree s' [] ((b + pg_len, n) ∷ rs)
unfolding ppgalloc
alloc-cut s b n rs v =
    let (e, h, k, l) = v.regions in
    let behind : (b + pg_len) % 2 ^ 32 ≡ b + pg_len = omega arith in
    let left : (s.len b + 2 ^ 32 - pg_len) % 2 ^ 32 ≡ suc n * pg_len = omega arith in
    let c = b + pg_len in
    let out = NotIn-append_right c (run (c + pg_len) n) (region_pages rs) v.distinct.1.0 in
    let s' : Phys = record {
      rootrgn = c;
      rootppg = s.rootppg;
      next = store s.next c (s.next b);
      len = store s.len c (suc n * pg_len);
    } in
    let others =
      Regions-len (store s.next c (s.next b)) s.len (s.next b) c (suc n * pg_len) rs out
        (Regions-next s.next s.len (s.next b) c (s.next b) rs out l) in
    let link : store s.next c (s.next b) c ≡ s.next b = ground arith in
    (
      s',
      ground arith,
      record {
        singles = v.singles;
        regions = (refl, omega arith, ground arith, rw link others);
        distinct = v.distinct.1;
      },
    )

-- `ppgalloc` hands out the first of the free pages and leaves the others free, in their order, each
-- of them once.
pub ppgalloc-first :
    (s : Phys) (fs : List ℕ) (rs : List (ℕ × ℕ)) (p : ℕ) (ps : List ℕ)
    → IsFree s fs rs
    → fs ++ region_pages rs ≡ p ∷ ps
    → (s' : Phys) × (fs' : List ℕ) × (rs' : List (ℕ × ℕ)) × (ppgalloc s ≡ some (p, s'))
      × IsFree s' fs' rs'
      × (fs' ++ region_pages rs' ≡ ps)
ppgalloc-first s (x ∷ fs) rs p ps v e =
    let (s', c, v') = alloc-single s x fs rs v in (s', fs, rs, cc, v', cc)
ppgalloc-first s [] [] p ps v e = cc
ppgalloc-first s [] ((b, zero) ∷ rs) p ps v e =
    let (s', c, v') = alloc-last s b rs v in (s', [], rs, cc, v', cc)
ppgalloc-first s [] ((b, suc n) ∷ rs) p ps v e =
    let (s', c, v') = alloc-cut s b n rs v in (s', [], (b + pg_len, n) ∷ rs, cc, v', cc)

-- With no free page `ppgalloc` halts.
pub ppgalloc-none : (s : Phys) → IsFree s [] [] → ppgalloc s ≡ none
unfolding ppgalloc
ppgalloc-none s v = ground (arith, v.singles, v.regions)
