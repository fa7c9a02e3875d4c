-- ===== src/Kernel/Sleep.antt =====
-- src/multitask.c: the list of sleepers, in which each entry holds the ticks from the one before it.
-- Times are not negative.
pub mod Wakes
mod Tests
use yax.Base.{
  ℕ, zero, suc, ◌+◌, ◌-◌, Bool, true, false, List, [], ◌∷◌, ◌++◌, leb, ◌==◌, if◌then◌else◌,
}

-- The tag and the union: a semaphore to signal, or a process to notify.
pub data Who : Type 0 where
  sleeper : ℕ → Who
  alarm : ℕ → Who

pub record Sleep : Type 0 where
  pub time : ℕ
  pub who : Who

-- The loop of `sleepalarm` at an entry, with the ticks up to it.
unfoldable pub sleepalarm_from : ℕ → ℕ → Who → List Sleep → List Sleep
sleepalarm_from total time who [] = record { time = time - total; who = who } ∷ []
sleepalarm_from total time who (e ∷ q) =
    let total' = total + e.time in
    let rest = sleepalarm_from total' time who q in
    if leb time total'
    then record { time = time - (total' - e.time); who = who }
      ∷ record e { time = e.time - (total' - time) }
      ∷ q
    else e ∷ rest

unfoldable pub sleepalarm : ℕ → Who → List Sleep → List Sleep
sleepalarm time who q = sleepalarm_from 0 time who q

-- `while(sleeping && sleeping->time <= 0)`: who is woken, in order, and what is left.
unfoldable pub expire : List Sleep → List Who × List Sleep
expire [] = ([], [])
expire (e ∷ q) = let (ws, r) = expire q in if e.time == 0 then (e.who ∷ ws, r) else ([], e ∷ q)

-- The part of `timer_handler` that counts down.
unfoldable pub timer_tick : List Sleep → List Who × List Sleep
timer_tick [] = ([], [])
timer_tick (e ∷ q) = expire (record e { time = e.time - 1 } ∷ q)

abbrev is_alarm_of : ℕ → Who → Bool
is_alarm_of p (sleeper s) = false
is_alarm_of p (alarm q) = q == p

-- The loop of `procexitsgut1` that drops the alarms of a process.
unfoldable pub drop_alarms : ℕ → List Sleep → List Sleep
drop_alarms p [] = []
drop_alarms p (e ∷ q) = let rest = drop_alarms p q in if is_alarm_of p e.who then rest else e ∷ rest
