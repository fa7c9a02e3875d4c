-- ===== src/Kernel/Sleep/Tests.antt =====
-- The list of sleepers at concrete times.
use yax.Base.{◌≡◌, refl, List, [], ◌∷◌, ◌++◌}
use yax.Kernel.Sleep.{Sleep, sleeper, alarm, timer_tick, drop_alarms}
use yax.Kernel.Sleep.Wakes.{wakes, at_time, NoneDue, timer_tick-wakes}

abbrev soon : Sleep
soon = record { time = 1; who = sleeper 4 }

abbrev later : Sleep
later = record { time = 5; who = sleeper 6 }

abbrev two : List Sleep
two = record { time = 0; who = alarm 9 } ∷ later ∷ []

timer_tick-wakes_example :
    let (ws, r) = timer_tick (soon ∷ two) in
    (wakes 0 (soon ∷ two) ≡ at_time 1 ws ++ wakes 1 r) × NoneDue r
timer_tick-wakes_example = timer_tick-wakes soon two

later-stays : drop_alarms 2 (later ∷ []) ≡ later ∷ []
unfolding drop_alarms
later-stays = refl
