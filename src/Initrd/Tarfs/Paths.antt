-- ===== src/Initrd/Tarfs/Paths.antt =====
-- initrd/tarfs.c: which entries stand in a directory.
use yax.Base.{
  ℕ, ◌≡◌, ◌≢◌, refl, true, false, some, [], ◌∷◌, ◌++◌, arith, All, ==_self, ◌∙◌, ap, sym,
  append-nil,
}
use yax.Codas.Bit.{Bytes}
use yax.Initrd.Tarfs.{is_plain, subent_from, subent}

-- A path that is a part of the name, and what is left of it.
subent_from-behind :
    (path : Bytes) (c : ℕ) (s : Bytes)
    → subent_from (path ++ (c ∷ s)) [] path ≡ some (is_plain (c ∷ s))
unfolding subent_from
subent_from-behind [] c s = refl
subent_from-behind (d ∷ path) c s = rw (subent_from, ==_self d) (subent_from-behind path c s)

subent-behind :
    (path : Bytes) (c : ℕ) (s : Bytes)
    → subent [] (path ++ (c ∷ s)) (47 ∷ path) ≡ some (is_plain (c ∷ s))
unfolding subent subent_from
subent-behind [] c s = refl
subent-behind (d ∷ path) c s = rw (subent_from, ==_self d) (subent_from-behind path c s)

abbrev pub IsComponent : Bytes → Type 0
IsComponent s = All (λ c. c ≢ 47) s

is_plain-cons : (c : ℕ) (t : Bytes) → c ≢ 47 → is_plain (c ∷ t) ≡ is_plain t
unfolding is_plain
is_plain-cons c [] n = refl
is_plain-cons c (d ∷ t) n = ground arith

is_plain-component : (s t : Bytes) → IsComponent s → is_plain (s ++ t) ≡ is_plain t
is_plain-component [] t n = refl
is_plain-component (c ∷ s) t n = is_plain-cons c (s ++ t) n.0 ∙ is_plain-component s t n.1

-- An entry without a prefix whose name is a directory's path and one component behind it stands in
-- that directory, with or without a slash at its end; one with a further component does not.
pub subent-children :
    (path s t : Bytes) (c d : ℕ)
    → IsComponent (c ∷ s)
    → (subent [] (path ++ (c ∷ s)) (47 ∷ path) ≡ some true)
      × (subent [] (path ++ (c ∷ (s ++ (47 ∷ [])))) (47 ∷ path) ≡ some true)
      × (subent [] (path ++ (c ∷ (s ++ (47 ∷ d ∷ t)))) (47 ∷ path) ≡ some false)
subent-children path s t c d n = (
  subent-behind path c s
      ∙ ap some (
          ap is_plain (sym (append-nil (c ∷ s)))
          ∙ is_plain-component (c ∷ s) [] n
          ∙ unfold is_plain in refl),
  subent-behind path c (s ++ (47 ∷ []))
      ∙ ap some (is_plain-component (c ∷ s) (47 ∷ []) n ∙ unfold is_plain in refl),
  subent-behind path c (s ++ (47 ∷ d ∷ t))
      ∙ ap some (is_plain-component (c ∷ s) (47 ∷ d ∷ t) n ∙ unfold is_plain in refl),
)
