-- ===== src/Kernel/Fds/Slots.antt =====
-- The list of open connections as a map from numbers.
use yax.Base.{
  Bool-cases, Option-cases, inl, inr, sym, ℕ, zero, suc, ◌+◌, ◌-◌, ◌≤◌, ◌<◌, ◌≡◌, ◌≢◌, refl, Option,
  none, some, List, [], ◌∷◌, ◌++◌, length, set, leb, replicate, if◌then◌else◌, arith, ◌==◌, ap,
}
use yax.Kernel.Fds.{FdList, fdalloc, fdalloc_from, fddealloc, fd2conn}

-- The number of the first free slot.
lowest : FdList → ℕ
lowest [] = 0
lowest (none ∷ fl) = 0
lowest (some c ∷ fl) = suc (lowest fl)

fdalloc_from-number : (c : ℕ) (fl : FdList) (i : ℕ) → (fdalloc_from c fl i).0 ≡ i + lowest fl
unfolding fdalloc_from lowest
fdalloc_from-number c [] i = omega arith
fdalloc_from-number c (none ∷ fl) i = omega arith
fdalloc_from-number c (some d ∷ fl) i = omega (arith, fdalloc_from-number c fl (i + 1))

fdalloc_from-get :
    (c : ℕ) (fl : FdList) (i j : ℕ)
    → fd2conn (fdalloc_from c fl i).1 j ≡ (if j == lowest fl then some c else fd2conn fl j)
unfolding fdalloc_from fd2conn lowest
fdalloc_from-get c [] i zero = refl
fdalloc_from-get c [] i (suc j) = ground arith
fdalloc_from-get c (none ∷ fl) i zero = refl
fdalloc_from-get c (none ∷ fl) i (suc j) = ground arith
fdalloc_from-get c (some d ∷ fl) i zero = ground arith
fdalloc_from-get c (some d ∷ fl) i (suc j) = ground (arith, fdalloc_from-get c fl (i + 1) j)

lowest-free : (fl : FdList) → fd2conn fl (lowest fl) ≡ none
unfolding fd2conn lowest
lowest-free [] = refl
lowest-free (none ∷ fl) = refl
lowest-free (some d ∷ fl) = lowest-free fl

lowest-least : (fl : FdList) (j : ℕ) → j < lowest fl → fd2conn fl j ≢ none
unfolding fd2conn lowest
lowest-least [] j h = absurd (omega arith)
lowest-least (none ∷ fl) j h = absurd (omega arith)
lowest-least (some d ∷ fl) zero h = cc
lowest-least (some d ∷ fl) (suc j) h = lowest-least fl j (omega arith)

-- `fdalloc` gives the connection the lowest number that is free, and every other number keeps its
-- connection.
pub fdalloc-lowest :
    (c : ℕ) (fl : FdList)
    → let (fd, fl') = fdalloc c fl in
      (fd2conn fl fd ≡ none)
      × ((j : ℕ) → j < fd → fd2conn fl j ≢ none)
      × ((j : ℕ) → fd2conn fl' j ≡ (if j == fd then some c else fd2conn fl j))
unfolding fdalloc
fdalloc-lowest c fl =
    let e : (fdalloc_from c fl 0).0 ≡ lowest fl = omega (arith, fdalloc_from-number c fl 0) in
    rw e (lowest-free fl, (λ j h. lowest-least fl j h), λ j. fdalloc_from-get c fl 0 j)

fd2conn-grown : (fl : FdList) (n j : ℕ) → fd2conn (fl ++ replicate n none) j ≡ fd2conn fl j
unfolding fd2conn
fd2conn-grown [] zero j = refl
fd2conn-grown [] (suc n) zero = refl
fd2conn-grown [] (suc n) (suc j) = fd2conn-grown [] n j
fd2conn-grown (s ∷ fl) n zero = refl
fd2conn-grown (s ∷ fl) n (suc j) = fd2conn-grown fl n j

fd2conn-past : (fl : FdList) (j : ℕ) → length fl ≤ j → fd2conn fl j ≡ none
unfolding fd2conn
fd2conn-past [] j h = refl
fd2conn-past (s ∷ fl) zero h = absurd (omega arith)
fd2conn-past (s ∷ fl) (suc j) h = fd2conn-past fl j (omega arith)

fd2conn-set :
    (fl : FdList) (i j : ℕ) (v : Option ℕ)
    → i < length fl
    → fd2conn (set fl i v) j ≡ (if j == i then v else fd2conn fl j)
unfolding fd2conn
fd2conn-set [] i j v h = absurd (omega arith)
fd2conn-set (s ∷ fl) zero zero v h = refl
fd2conn-set (s ∷ fl) zero (suc j) v h = ground arith
fd2conn-set (s ∷ fl) (suc i) zero v h = ground arith
fd2conn-set (s ∷ fl) (suc i) (suc j) v h = ground (arith, fd2conn-set fl i j v (omega arith))

-- The three cases of `fddealloc`.
dealloc-past :
    (fd : ℕ) (fl : FdList)
    → length fl ≤ fd
    → fddealloc fd fl ≡ (fl ++ replicate (fd + 1 - length fl) none, [])
unfolding fddealloc
dealloc-past fd fl h = ground arith

dealloc-unused :
    (fd : ℕ) (fl : FdList) → fd < length fl → fd2conn fl fd ≡ none → fddealloc fd fl ≡ (fl, [])
unfolding fddealloc fd2conn
dealloc-unused fd fl h e = ground arith

dealloc-used :
    (fd c : ℕ) (fl : FdList)
    → fd < length fl
    → fd2conn fl fd ≡ some c
    → fddealloc fd fl ≡ (set fl fd none, c ∷ [])
unfolding fddealloc fd2conn
dealloc-used fd c fl h e = ground arith

abbrev pub given_back : Option ℕ → List ℕ
given_back none = []
given_back (some c) = c ∷ []

-- `fddealloc` frees the number, whether or not it was in use, and gives back the reference of the
-- connection that it had, if it had one; every other number keeps its connection.
pub fddealloc-free :
    (fd : ℕ) (fl : FdList)
    → let (fl', gone) = fddealloc fd fl in
      ((j : ℕ) → fd2conn fl' j ≡ (if j == fd then none else fd2conn fl j))
      × (gone ≡ given_back (fd2conn fl fd))
fddealloc-free fd fl = elim (Bool-cases (leb (length fl) fd)) [
  | inl past ↦
      let p : length fl ≤ fd = ground arith in
      rw (dealloc-past fd fl p) (
        (λ j. ground (arith, fd2conn-grown fl (fd + 1 - length fl) j, fd2conn-past fl j)),
        ground (arith, fd2conn-past fl fd p),
      )
  | inr inside ↦
      let p : fd < length fl = ground arith in
      elim (Option-cases (fd2conn fl fd)) [
        | inl e ↦ rw (dealloc-unused fd fl p e) ((λ j. ground arith), ap given_back (sym e))
        | inr (c, e) ↦
            rw (dealloc-used fd c fl p e) ((λ j. fd2conn-set fl fd j none p), ap given_back (sym e))
      ]
]
