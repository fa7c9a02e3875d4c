-- ===== src/Kernel/Phys/Tests.antt =====
-- Free pages: one single page, and a region of two.
use yax.Base.{ℕ, ◌≡◌, refl, some, List, [], ◌∷◌, ◌++◌, arith, ◌==◌, if◌then◌else◌}
use yax.Kernel.Phys.{Phys, no_phys_pg, ppgalloc}
use yax.Kernel.Phys.Free.{IsFree, region_pages, ppgalloc-first}

abbrev regions : List (ℕ × ℕ)
regions = (8192, 1) ∷ []

abbrev three : Phys
three = record {
  rootrgn = 8192;
  rootppg = 4096;
  next = (λ p. no_phys_pg);
  len = (λ p. if p == 8192 then 8192 else 0);
}

three-IsFree : IsFree three (4096 ∷ []) regions
three-IsFree = record {
  singles = (refl, omega arith, refl);
  regions = (refl, omega arith, refl, refl);
  distinct = ((omega arith, (omega arith, tt)), ((omega arith, tt), (tt, tt)));
}

ppgalloc-first_example :
    (s' : Phys) × (fs' : List ℕ) × (rs' : List (ℕ × ℕ)) × (ppgalloc three ≡ some (4096, s'))
    × IsFree s' fs' rs'
    × (fs' ++ region_pages rs' ≡ 8192 ∷ 12288 ∷ [])
ppgalloc-first_example =
    ppgalloc-first three (4096 ∷ []) regions 4096 (8192 ∷ 12288 ∷ []) three-IsFree refl
