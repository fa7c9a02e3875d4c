-- ===== src/Kernel/Pmap/Lookup.antt =====
-- The tree is a map from pages.
use yax.Base.{
  ==→eq, inr, eq→==, sym, inl, Bool-cases, ==_self, ℕ, ◌/◌, ◌^◌, ◌<◌, ◌≡◌, refl, Bool, true, List,
  [], ◌∷◌, ◌==◌, ◌&&◌, if◌then◌else◌, arith, length,
}
use yax.Kernel.Pmap.{
  Pmap, null, node, leaf, digits, child, pmap_get_at, pmapget, pmap_set_at, pmapset,
}

-- Whether two paths down the tree are one.
same : List ℕ → List ℕ → Bool
same [] ds = true
same (e ∷ es) [] = true
same (e ∷ es) (d ∷ ds) = (e == d) && same es ds

get-child : (t : Pmap) (d : ℕ) (ds : List ℕ) → pmap_get_at t (d ∷ ds) ≡ pmap_get_at (child t d) ds
unfolding pmap_get_at
get-child null d [] = refl
get-child null d (e ∷ ds) = refl
get-child (node ps) d ds = refl
get-child (leaf p) d [] = refl
get-child (leaf p) d (e ∷ ds) = refl

pmap_get_at-set :
    (t : Pmap) (es ds : List ℕ) (np : ℕ)
    → length es ≡ length ds
    → pmap_get_at (pmap_set_at t ds np) es ≡ (if same es ds then np else pmap_get_at t es)
unfolding pmap_set_at same pmap_get_at
pmap_get_at-set t [] [] np h = refl
pmap_get_at-set t [] (d ∷ ds) np h = absurd (omega arith)
pmap_get_at-set t (e ∷ es) [] np h = absurd (omega arith)
pmap_get_at-set t (e ∷ es) (d ∷ ds) np h =
    ground (arith, get-child t e es, pmap_get_at-set (child t d) es ds np)

same_self : (ds : List ℕ) → same ds ds ≡ true
unfolding same
same_self [] = refl
same_self (d ∷ ds) = rw (==_self d) (same_self ds)

equal_of_same :
    (a b c d e a' b' c' d' e' : ℕ)
    → same (a ∷ b ∷ c ∷ d ∷ e ∷ []) (a' ∷ b' ∷ c' ∷ d' ∷ e' ∷ []) ≡ true
    → (a ≡ a') × (b ≡ b') × (c ≡ c') × (d ≡ d') × (e ≡ e')
unfolding same
equal_of_same a b c d e a' b' c' d' e' h = ground arith

same_of_equal : (p q : ℕ) → p / 2 ^ 12 ≡ q / 2 ^ 12 → same (digits p) (digits q) ≡ true
same_of_equal p q e = let eq : digits p ≡ digits q = ground arith in rw eq (same_self (digits q))

same-digits :
    (p q : ℕ) → p < 2 ^ 32 → q < 2 ^ 32 → same (digits p) (digits q) ≡ (p / 2 ^ 12 == q / 2 ^ 12)
same-digits p q h k = elim (Bool-cases (same (digits p) (digits q))) [
  | inl t ↦ rw t (sym (eq→== _ _ (omega (arith, equal_of_same _ _ _ _ _ _ _ _ _ _ t))))
  | inr f ↦ elim (Bool-cases (p / 2 ^ 12 == q / 2 ^ 12)) [
    | inl e ↦ cc (same_of_equal p q (==→eq _ _ e))
    | inr e ↦ rw (f, e)
  ]
]

-- After `pmapset` the page that was set is found, and what is found for any other page is unchanged:
-- two addresses of 32 bits share an entry exactly if they lie in one page.
pub pmapget-pmapset :
    (t : Pmap) (p q np : ℕ)
    → p < 2 ^ 32
    → q < 2 ^ 32
    → pmapget (pmapset t q np).0 p ≡ (if p / 2 ^ 12 == q / 2 ^ 12 then np else pmapget t p)
unfolding pmapset pmapget
pmapget-pmapset t p q np h k =
    rw (← same-digits p q h k) (pmap_get_at-set t (digits p) (digits q) np refl)
