-- ===== src/Kernel/Sleep/Wakes.antt =====
-- The list of sleepers against the times at which they are due.
use yax.Base.{
  ◌*◌, take, length, leb, Bool-cases, inl, inr, ap, ◌∙◌, ℕ_discrete, eq→==, ==_self, ℕ, suc, ◌+◌,
  ◌-◌, ◌≤◌, ◌<◌, ◌≡◌, refl, true, false, List, [], ◌∷◌, ◌++◌, map, leb, ◌==◌, if◌then◌else◌, arith,
}
use yax.Kernel.Sleep.{
  Who, alarm, Sleep, sleepalarm_from, sleepalarm, expire, timer_tick, drop_alarms,
}

abbrev pub Due : Type 0
Due = List (ℕ × Who)

-- When each sleeper is due, counted from `t` ticks before the first entry's count begins.
unfoldable pub wakes : ℕ → List Sleep → Due
wakes t [] = []
wakes t (e ∷ q) = (t + e.time, e.who) ∷ wakes (t + e.time) q

-- The sleepers that are due before `t`: the first ones up to one that is not.
unfoldable pub before : ℕ → Due → Due
before t [] = []
before t ((u, v) ∷ ds) = let rest = before t ds in if leb t u then [] else (u, v) ∷ rest

sleepalarm_from-before :
    (total t : ℕ) (w : Who) (q : List Sleep)
    → total ≤ t
    → let earlier = before t (wakes total q) in
      take (length earlier + 1) (wakes total (sleepalarm_from total t w q))
      ≡ earlier ++ ((t, w) ∷ [])
unfolding wakes sleepalarm_from before
sleepalarm_from-before total t w [] h = let here : total + (t - total) ≡ t = omega arith in rw here
sleepalarm_from-before total t w (e ∷ q) h = elim (Bool-cases (leb t (total + e.time))) [
  | inl c ↦ let here : total + (t - (total + e.time - e.time)) ≡ t = omega arith in rw (c, here)
  | inr c ↦
      let rest = sleepalarm_from-before (total + e.time) t w q (ground arith) in
      let more : (n : ℕ) → suc n + 1 ≡ suc (n + 1) = λ n. omega arith in
      rw (c, more) (ap (λ (ds : Due). (total + e.time, e.who) ∷ ds) rest)
]

-- `sleepalarm` makes the new sleeper due after exactly the time that it asks for, and leaves every
-- sleeper that is due before it due when it was.
pub sleepalarm-before :
    (t : ℕ) (w : Who) (q : List Sleep)
    → let earlier = before t (wakes 0 q) in
      take (length earlier + 1) (wakes 0 (sleepalarm t w q)) ≡ earlier ++ ((t, w) ∷ [])
unfolding sleepalarm
sleepalarm-before t w q = sleepalarm_from-before 0 t w q (omega arith)

-- A sleeper that goes in front of the first one makes that one due at twice its own time, whenever it
-- was due before, and moves all behind it along.
pub sleepalarm-skews :
    (t : ℕ) (w : Who) (e : Sleep) (q : List Sleep)
    → t ≤ e.time
    → wakes 0 (sleepalarm t w (e ∷ q)) ≡ (t, w) ∷ (2 * t, e.who) ∷ wakes (2 * t) q
unfolding wakes sleepalarm sleepalarm_from
sleepalarm-skews t w e q h =
    let c : leb t (0 + e.time) ≡ true = ground arith in
    let here : 0 + (t - (0 + e.time - e.time)) ≡ t = omega arith in
    let twice : t + (e.time - (0 + e.time - t)) ≡ 2 * t = omega arith in rw (c, here, twice)

-- The sleepers, each due at `t`.
abbrev pub at_time : ℕ → List Who → Due
at_time t = map (λ w. (t, w))

-- No sleeper of the list is due at once.
abbrev pub NoneDue : List Sleep → Type 0
NoneDue [] = Unit {0}
NoneDue (e ∷ q) = 0 < e.time

expire-wakes :
    (t : ℕ) (q : List Sleep)
    → let (ws, r) = expire q in (wakes t q ≡ at_time t ws ++ wakes t r) × NoneDue r
unfolding wakes expire
expire-wakes t [] = (refl, tt)
expire-wakes t (e ∷ q) = elim (ℕ_discrete e.time 0) [
  | yes z ↦
      let now : t + e.time ≡ t = omega arith in
      let (ds, none_due) = expire-wakes t q in
      rw (eq→== e.time 0 z, now) (ap (λ (ds : Due). (t, e.who) ∷ ds) ds, none_due)
  | no z ↦ let later : (e.time == 0) ≡ false = ground arith in rw later (refl, omega arith)
]

-- One tick of the timer, in which the first sleeper's count goes down, wakes exactly the sleepers that
-- were due in one tick, in order, and leaves every other one due one tick nearer. Where the first one
-- was due at once, as after an alarm in no time, the tick wakes just those that were due at once, and
-- brings no other one nearer. In both cases none that is left is due at once.
pub timer_tick-wakes :
    (e : Sleep) (q : List Sleep)
    → let (ws, r) = timer_tick (e ∷ q) in
      let t : ℕ = (if e.time == 0 then 0 else 1) in
      (wakes 0 (e ∷ q) ≡ at_time t ws ++ wakes t r) × NoneDue r
unfolding timer_tick
timer_tick-wakes e q =
    let t : ℕ = (if e.time == 0 then 0 else 1) in
    let (ds, none_due) = expire-wakes t (record e { time = e.time - 1 } ∷ q) in
    let same : 0 + e.time ≡ t + (e.time - 1) = ground arith in
    (unfold wakes in ap (λ k. (k, e.who) ∷ wakes k q) same ∙ ds, none_due)

-- An entry behind an alarm that is dropped loses the ticks of the alarm: where the alarm of an exiting
-- process, `t` ticks away, stands before sleepers none of which it drops, they were due counted from
-- `t`, and after it are due counted from 0.
pub drop_alarms-early :
    (p t : ℕ) (q : List Sleep)
    → drop_alarms p q ≡ q
    → let all = record { time = t; who = alarm p } ∷ q in
      (wakes 0 all ≡ (t, alarm p) ∷ wakes t q) × (wakes 0 (drop_alarms p all) ≡ wakes 0 q)
unfolding drop_alarms wakes
drop_alarms-early p t q h =
    let zero_add : 0 + t ≡ t = omega arith in
    (ap (λ k. (k, alarm p) ∷ wakes k q) zero_add, rw (==_self p, h))
