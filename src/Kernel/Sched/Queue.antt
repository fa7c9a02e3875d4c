-- ===== src/Kernel/Sched/Queue.antt =====
-- The semaphores: who goes on, who leaves the run queue, and who comes back.
use yax.Base.{
  NotIn, ◌∙◌, ap, ℕ, suc, ◌-◌, ◌≤◌, ◌<◌, ◌≡◌, refl, true, false, none, some, List, not, [], ◌∷◌,
  ◌++◌, length, arith,
}
use yax.Base.Int.{is_neg, ◌+ℤ◌, minus-pos, minus, pos}
use yax.Kernel.Sched.{
  is_sem, Sched, Proc, Sem, update, seminit, goes_on, switches, leave_queue, join_queue, block_on,
  semwait, wake, semsignal_loop, semsignal,
}
use yax.Kernel.Sched.Ring.{
  Linked, IsRing, findprev-search_ends, leave_queue-Linked, join_queue-IsRing,
}

-- With enough units a wait takes them and goes on: the run queue and the processes are unchanged.
pub semwait-goes_on :
    (k i n v : ℕ) (s : Sched)
    → (s.sems i).sem ≡ pos v
    → n ≤ v
    → semwait k i n s
      ≡ goes_on (record s { sems = update s.sems i (record (s.sems i) { sem = pos (v - n) }) })
unfolding semwait
semwait-goes_on k i n v s e h =
    let left : minus ((s.sems i).sem) n ≡ pos (v - n) = ap (λ t. minus t n) e ∙ minus-pos v n h in
    rw left

-- A process that puts itself to sleep waits for one unit on the semaphore that `sleepalarm` has just
-- set up, and goes on at once: the semaphore starts with one unit.
pub sleep-goes_on :
    (k i : ℕ) (s : Sched)
    → (s.sems i) ≡ seminit 1
    → (s' : Sched) × (semwait k i 1 s ≡ goes_on s') × (s'.cur ≡ s.cur) × (s'.next ≡ s.next)
unfolding seminit
sleep-goes_on k i s e =
    (_, semwait-goes_on k i 1 1 s (ap (λ (t : Sem). t.sem) e) (omega arith), refl, refl)

-- With too few units, also where others wait for some already and the count is below zero, a caller that waits for nothing else, in a ring with other processes, becomes
-- the first waiter, blocked on the semaphore for what it asked, and the others keep the run queue to
-- themselves.
pub semwait-switches :
    (k i n : ℕ) (s : Sched) (y : ℕ) (ys : List ℕ)
    → is_neg (minus ((s.sems i).sem) n) ≡ true
    → (s.procs s.cur).blocked ≡ none
    → (s.procs s.cur).blocked2 ≡ none
    → IsRing s (y ∷ ys)
    → suc (length ys) < k
    → (s' : Sched) × (semwait k i n s ≡ switches s')
      × Linked s'.next (y ∷ ys) y
      × (s'.next s.cur ≡ y)
      × ((s'.sems i).waiter ≡ some s.cur)
      × (s'.bnext s.cur ≡ (s.sems i).waiter)
      × ((s'.procs s.cur).blocked ≡ some i)
      × ((s'.procs s.cur).blockedn ≡ n)
unfolding semwait
semwait-switches k i n s y ys e b b2 r f =
    let neg : not (is_neg (minus ((s.sems i).sem) n)) ≡ false = ap not e in
    let found = findprev-search_ends k s (y ∷ ys) r.linked r.distinct.0 f in
    let p : Proc = record (s.procs s.cur) { blocked = some i; blockedn = n } in
    let blocks : block_on (s.procs s.cur) i n ≡ some p = unfold block_on in ground arith in
    let s1 : Sched = record s {
      bnext = update s.bnext s.cur (s.sems i).waiter;
      sems = update s.sems i (record { sem = minus ((s.sems i).sem) n; waiter = some s.cur });
      procs = update s.procs s.cur p;
    } in
    let (links, next) =
      leave_queue-Linked k s1 y ys (record { linked = r.linked; distinct = r.distinct }) f in
    (
      leave_queue k s1,
      rw (neg, blocks, found),
      links,
      next,
      unfold leave_queue in ground arith,
      unfold leave_queue in ground arith,
      unfold leave_queue in ground arith,
      unfold leave_queue in ground arith,
    )

-- One round of the loop.
pub semsignal_loop-wakes :
    (f k i w n m : ℕ) (s s' : Sched)
    → (s.sems i).waiter ≡ some w
    → 0 < n
    → wake k i n w s ≡ some (m, s')
    → semsignal_loop (suc f) k i n s ≡ semsignal_loop f k i m s'
unfolding semsignal_loop
semsignal_loop-wakes f k i w n m s s' e h wakes = ground arith

-- The loop ends when nothing is left.
semsignal_loop-done : (f k i n : ℕ) (s : Sched) → n ≡ 0 → semsignal_loop (suc f) k i n s ≡ some s
unfolding semsignal_loop
semsignal_loop-done f k i n s e = ground arith

-- A signal of one unit wakes the waiter that came last, where that waits for this semaphore alone,
-- for one unit or more, and is not in the ring: it is no longer blocked and runs after all that are
-- in the run queue, and the waiter before it is the next.
pub semsignal-wakes :
    (f k i w : ℕ) (s : Sched) (xs : List ℕ)
    → (s.sems i).waiter ≡ some w
    → (s.procs w).blocked ≡ some i
    → (s.procs w).blocked2 ≡ none
    → 0 < (s.procs w).blockedn
    → IsRing s xs
    → NotIn w (s.cur ∷ xs)
    → length xs < k
    → (s' : Sched) × (semsignal (suc (suc f)) k i 1 s ≡ some s')
      × IsRing s' (xs ++ (w ∷ []))
      × ((s'.procs w).blocked ≡ none)
      × ((s'.sems i).waiter ≡ s.bnext w)
unfolding semsignal wake
semsignal-wakes f k i w s xs e b b2 m r n h =
    let v = (s.sems i).sem +ℤ pos 1 in
    let s1 : Sched = record s { sems = update s.sems i (record (s.sems i) { sem = v }) } in
    let waits : is_sem (s.procs w).blocked i ≡ true = ground arith in
    let found = findprev-search_ends k s1 xs r.linked r.distinct.0 h in
    let s2 : Sched = record (join_queue k s1 w) {
      procs = update s.procs w (record (s.procs w) { blocked = none });
      sems = update s1.sems i (record (s1.sems i) { waiter = s.bnext w });
    } in
    let first : wake k i 1 w s1 ≡ some (1 - (s.procs w).blockedn, s2) = rw (waits, b2, found) in
    let head : (s1.sems i).waiter ≡ some w = ground arith in
    let ring =
      join_queue-IsRing k s1 xs w (record { linked = r.linked; distinct = r.distinct }) n h in
    (
      s2,
      semsignal_loop-wakes (suc f) k i w 1 (1 - (s.procs w).blockedn) s1 s2 head (omega arith) first
          ∙ semsignal_loop-done f k i (1 - (s.procs w).blockedn) s2 (omega arith),
      record { linked = ring.linked; distinct = ring.distinct },
      ground arith,
      ground arith,
    )
