-- ===== src/Kernel/Syscall/Safe.antt =====
-- What the checks of the system calls guard.
use yax.Base.{ℕ, ◌≤◌, List, [], ◌∷◌}

abbrev pub AllAtMost : ℕ → List ℕ → Type 0
AllAtMost n [] = Unit {0}
AllAtMost n (i ∷ is) = (i ≤ n) × AllAtMost n is
