-- ===== src/Yaxfs/File/Lookup.antt =====
-- What `dirwalk` finds, and what `dirdelfile` removes.
use yax.Base.{
  some, get_elem?, Option-cases, inl, inr, lt_of_get_elem?, ◌≢◌, ◌≤◌, ℕ, zero, suc, ◌+◌, ◌<◌, ◌≡◌,
  ◌≢◌, refl, List, [], ◌∷◌, ◌++◌, arith, length,
}
use yax.Base.Int.{pos}
use yax.Codas.Bit.{Bytes}
use yax.Codas.Vector.{vec_iter_next, vec_load, Vec, vec_len, vec_get}
use yax.Libc.Str.Compare.{sign, strncmp-first}
use yax.Yaxfs.File.{walk_from, past_end, Files, found, dirwalk, dir_del_from, dir_del_file}

-- A directory whose first file's name begins with the character that the wanted name begins with
-- is taken to hold the wanted file there, whatever the rest of the two names.
pub dirwalk-first :
    (fs : Files) (d h x n : ℕ) (t p : Bytes) (rest : List ℕ)
    → (fs d).dir.items ≡ h ∷ rest
    → (fs h).name ≡ x ∷ t
    → dirwalk fs d (x ∷ p) (suc n) ≡ found h
unfolding dirwalk
dirwalk-first fs d h x n t p rest e q =
    let fuel : suc (length rest) + 2 ≡ suc (suc (suc (length rest))) = omega arith in
    rw (e, fuel) (ground (arith, q, e, strncmp-first x x n (t ++ (0 ∷ [])) p))

-- Every entry of the directory has a name, and none begins with the character `x`.
abbrev pub NoneBegins : Files → ℕ → List ℕ → Type 0
NoneBegins fs x hs =
    (i h : ℕ)
    → get_elem? hs i ≡ some h
    → (y : ℕ) × (t : Bytes) × ((fs h).name ≡ y ∷ t) × (sign y x ≢ pos 0)

walk_from-past_end :
    (fs : Files) (d : Vec ℕ) (x n k c : ℕ) (p : Bytes)
    → NoneBegins fs x d.items
    → c ≤ vec_len d
    → vec_len d < c + k
    → walk_from k fs d (x ∷ p) (suc n) (some c) ≡ past_end
unfolding walk_from vec_load vec_iter_next
walk_from-past_end fs d x n zero c p bad h k = absurd (omega arith)
walk_from-past_end fs d x n (suc k) c p bad h m = elim (Option-cases (get_elem? d.items c)) [
  | inl e ↦ rw (e, walk_from)
  | inr (i, e) ↦
      let (y, t, q, ne) = bad c i e in
      ground (
        arith,
        e,
        q,
        strncmp-first y x n (t ++ (0 ∷ [])) p,
        lt_of_get_elem? d.items c e,
        walk_from-past_end fs d x n k (c + 1) p bad,
      )
]

-- Looking up a name in a directory that has entries, none of them beginning with the name's first
-- character, reads the slot behind the last entry.
pub dirwalk-past_end :
    (fs : Files) (d x n : ℕ) (p : Bytes)
    → NoneBegins fs x (fs d).dir.items
    → 0 < vec_len (fs d).dir
    → dirwalk fs d (x ∷ p) (suc n) ≡ past_end
unfolding dirwalk
dirwalk-past_end fs d x n p bad h =
    ground (arith, walk_from-past_end fs (fs d).dir x n (vec_len (fs d).dir + 2) 0 p bad)

dir_del_from-same :
    (d : Vec ℕ) (f k i : ℕ) → ((j : ℕ) → j < i + k → vec_get d j ≢ f) → dir_del_from d f k i ≡ d
unfolding dir_del_from
dir_del_from-same d f zero i h = refl
dir_del_from-same d f (suc k) i h =
    ground (arith, h i (omega arith), dir_del_from-same d f k (i + 1) (λ j p. h j (omega arith)))

-- `dirdelfile` removes nothing: a file that does not lie in the directory's own buffer stays in the
-- directory.
pub dir_del_file-same :
    (fs : Files) (d f : ℕ)
    → ((j : ℕ) → j < vec_len (fs d).dir → vec_get (fs d).dir j ≢ f)
    → (dir_del_file fs d f d).dir ≡ (fs d).dir
unfolding dir_del_file
dir_del_file-same fs d f h =
    ground (arith, dir_del_from-same (fs d).dir f (vec_len (fs d).dir) 0 (λ j p. h j (omega arith)))
