-- ===== src/Kernel/Fds.antt =====
-- src/fs/fds.c, src/fs/fds.h: a process's open connections by number. A list of `len` slots, each the
-- number of a connection or, for a null pointer, `none`; the changes of reference counts are listed.
pub mod Slots
mod Tests
use yax.Base.{
  ℕ, zero, suc, ◌+◌, ◌-◌, Bool, true, false, Option, none, some, List, [], ◌∷◌, ◌++◌, length,
  get_elem?, set, leb, replicate, if◌then◌else◌,
}

abbrev pub FdList : Type 0
FdList = List (Option ℕ)

-- The connections of a list, each of which `ffree` gives back and `fdlistcopy` takes.
unfoldable pub conns : FdList → List ℕ
conns [] = []
conns (none ∷ fl) = conns fl
conns (some c ∷ fl) = c ∷ conns fl

-- `ffree`: the references that are given back.
unfoldable pub ffree : FdList → List ℕ
unfolding conns
ffree fl = conns fl

unfoldable pub fdlistnew : FdList
fdlistnew = []

-- The copy, and the references that it takes.
unfoldable pub fdlistcopy : FdList → FdList × List ℕ
unfolding conns
fdlistcopy fl = (fl, conns fl)

-- The loop from slot `i` on, with the slots from there.
unfoldable pub fdalloc_from : ℕ → FdList → ℕ → ℕ × FdList
fdalloc_from c [] i = (i, some c ∷ [])
fdalloc_from c (none ∷ fl) i = (i, some c ∷ fl)
fdalloc_from c (some d ∷ fl) i = let (fd, fl') = fdalloc_from c fl (i + 1) in (fd, some d ∷ fl')

unfoldable pub fdalloc : ℕ → FdList → ℕ × FdList
unfolding fdalloc_from
fdalloc c fl = fdalloc_from c fl 0

-- For a number that is not negative: the list, which grows up to the number, and the references given
-- back.
unfoldable pub fddealloc : ℕ → FdList → FdList × List ℕ
fddealloc fd fl =
    if leb (length fl) fd
    then (fl ++ replicate (fd + 1 - length fl) none, [])
    else elim (get_elem? fl fd) [
      | none ↦ (fl, [])
      | some slot ↦ elim slot [ none ↦ (fl, []) | some c ↦ (set fl fd none, c ∷ []) ]
    ]

-- `FD2CONN`
unfoldable pub fd2conn : FdList → ℕ → Option ℕ
fd2conn fl fd = elim (get_elem? fl fd) [ none ↦ none | some slot ↦ slot ]

-- `FDSET`
unfoldable pub fdset : ℕ → ℕ → FdList → ℕ × FdList
unfolding fddealloc
fdset fd c fl = (fd, set (fddealloc fd fl).0 fd (some c))
