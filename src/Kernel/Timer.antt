-- ===== src/Kernel/Timer.antt =====
-- src/multitask.c: the timer's interrupt, which counts the sleepers down, wakes those that are due and
-- takes a tick from the running process.
mod Left
use yax.Base.{ℕ, zero, suc, ◌-◌, Bool, true, false, none, some, List, [], ◌∷◌, ◌==◌, if◌then◌else◌}
use yax.Base.Int.{ℤ, pos, negsuc, ◌+ℤ◌}
use yax.Kernel.Sched.{Sched, Proc, update, procswitchgut, semsignal}
use yax.Kernel.Sleep.{Sleep, Who, sleeper, alarm, sleepalarm}
use yax.Kernel.Procs.{Procs, Notified, dropped, handles, pending, notify}

-- How an interrupt goes on: it ends, the running process handles an alarm with the sleepers as they
-- are at that moment, or the kernel halts in a signal.
pub data Ticked : Type 0 where
  ended : Procs → List Sleep → Ticked
  handler_runs : Procs → List Sleep → Ticked
  halted : Ticked

-- `quantum <= 0`
abbrev pub is_spent : ℤ → Bool
is_spent (pos zero) = true
is_spent (pos (suc n)) = false
is_spent (negsuc n) = true

-- The running process loses a tick, and its turn with the last one.
unfoldable pub spend : ℕ → Procs → Procs
spend sp s =
    let sched = s.sched in
    let p = sched.procs sched.cur in
    let p' = record p { quantum = p.quantum +ℤ negsuc 0 } in
    let sched' = record sched { procs = update sched.procs sched.cur p' } in
    record s { sched = (if is_spent p'.quantum then procswitchgut sp sched' else sched') }

-- How the wake of one sleeper goes on, in the same three ways.
pub data Woken : Type 0 where
  woke : Procs → Woken
  handles_now : Procs → Woken
  halts_now : Woken

unfoldable pub wake_one : ℕ → ℕ → Procs → Who → Woken
wake_one f k s (sleeper i) = elim (semsignal f k i 1 s.sched) [
  | none ↦ halts_now
  | some t ↦ woke (record s { sched = t })
]
wake_one f k s (alarm p) = elim (notify p s) [
  | dropped s' ↦ woke s'
  | pending s' ↦ woke s'
  | handles s' ↦ handles_now s'
]

abbrev pub after : Woken → (Procs → Ticked) → List Sleep → Ticked
after (woke s) next q = next s
after (handles_now s) next q = handler_runs s q
after halts_now next q = halted

-- The loop over the sleepers that are due, and the end of the interrupt. The entry of an alarm is
-- still in the list while the process that runs handles it.
unfoldable pub wake_due : ℕ → ℕ → ℕ → Procs → List Sleep → Ticked
unfolding spend wake_one
wake_due f k sp s [] = ended (spend sp s) []
wake_due f k sp s (e ∷ q) =
    if e.time == 0
    then after (wake_one f k s e.who) (λ t. wake_due f k sp t q) (e ∷ q)
    else ended (spend sp s) (e ∷ q)

unfoldable pub timer_handler : ℕ → ℕ → ℕ → Procs → List Sleep → Ticked
unfolding wake_due
timer_handler f k sp s [] = wake_due f k sp s []
timer_handler f k sp s (e ∷ q) = wake_due f k sp s (record e { time = e.time - 1 } ∷ q)

-- `procsleep`, before its wait for the semaphore `i`, and `procalarm`.
unfoldable pub procsleep : ℕ → ℕ → List Sleep → List Sleep
procsleep time i q = sleepalarm time (sleeper i) q

unfoldable pub procalarm : ℕ → Procs → List Sleep → List Sleep
procalarm time s q = sleepalarm time (alarm s.sched.cur) q
