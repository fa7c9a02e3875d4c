-- ===== src/Kernel/Fds/Tests.antt =====
-- A list with connections 8 and 9 at numbers 0 and 2.
use yax.Base.{ℕ, ◌<◌, ◌≡◌, ◌≢◌, none, some, [], ◌∷◌, ◌==◌, if◌then◌else◌}
use yax.Kernel.Fds.{FdList, fdalloc, fd2conn}
use yax.Kernel.Fds.Slots.{fdalloc-lowest}

abbrev list : FdList
list = some 8 ∷ none ∷ some 9 ∷ []

fdalloc-lowest_example :
    let (fd, fl') = fdalloc 5 list in
    (fd2conn list fd ≡ none)
    × ((j : ℕ) → j < fd → fd2conn list j ≢ none)
    × ((j : ℕ) → fd2conn fl' j ≡ (if j == fd then some 5 else fd2conn list j))
fdalloc-lowest_example = fdalloc-lowest 5 list
