-- ===== src/Kernel/Timer/Left.antt =====
-- The sleepers that an interrupt of the timer leaves.
use yax.Base.{ℕ, ◌-◌, ◌≡◌, refl, List, [], ◌∷◌, ◌==◌, inl, inr, Bool-cases}
use yax.Kernel.Sleep.{Sleep, expire, timer_tick}
use yax.Kernel.Procs.{Procs}
use yax.Kernel.Timer.{
  Ticked, ended, handler_runs, halted, Woken, woke, handles_now, halts_now, after, wake_one,
  wake_due, timer_handler,
}

-- The interrupt leaves `rest`, or has still to take the sleepers up to `rest` off its list.
abbrev Leaves : List Sleep → Ticked → Type 0
Leaves rest (ended s q) = q ≡ rest
Leaves rest (handler_runs s q) = (expire q).1 ≡ rest
Leaves rest halted = Unit

after-Leaves :
    (rest q : List Sleep) (w : Woken) (next : Procs → Ticked)
    → (expire q).1 ≡ rest
    → ((s : Procs) → Leaves rest (next s))
    → Leaves rest (after w next q)
after-Leaves rest q (woke s) next e h = h s
after-Leaves rest q (handles_now s) next e h = e
after-Leaves rest q halts_now next e h = tt

wake_due-Leaves :
    (f k sp : ℕ) (s : Procs) (q : List Sleep) → Leaves (expire q).1 (wake_due f k sp s q)
unfolding wake_due expire
wake_due-Leaves f k sp s [] = refl
wake_due-Leaves f k sp s (e ∷ q) = elim (Bool-cases (e.time == 0)) [
  | inr c ↦ rw (wake_due, c) refl
  | inl c ↦
      let due : (expire (e ∷ q)).1 ≡ (expire q).1 = rw (expire, c) refl in
      rw (wake_due, c)
        (after-Leaves (expire q).1 (e ∷ q) (wake_one f k s e.who) (λ t. wake_due f k sp t q) due
          (λ t. wake_due-Leaves f k sp t q))
]

-- The sleepers that the timer's interrupt leaves are those that the count of the list alone leaves,
-- whoever it wakes and whichever process has the next turn; where a handler runs in the midst, what is
-- then still to be taken off the list leads to the same.
timer_handler-Leaves :
    (f k sp : ℕ) (s : Procs) (q : List Sleep) → Leaves (timer_tick q).1 (timer_handler f k sp s q)
unfolding timer_handler timer_tick expire
timer_handler-Leaves f k sp s [] = wake_due-Leaves f k sp s []
timer_handler-Leaves f k sp s (e ∷ q) =
    wake_due-Leaves f k sp s (record e { time = e.time - 1 } ∷ q)
