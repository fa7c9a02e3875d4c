-- ===== src/Kernel/Sched/Signals.antt =====
-- What a signal does to a sound state of the scheduler.
use yax.Base.{
  NotIn, subst, ℕ, zero, suc, ◌-◌, ◌+◌, ◌<◌, ◌≡◌, List, [], ◌∷◌, ◌++◌, length, length-append, arith,
  none, some, In-snoc, All-map, All-snoc, All-away, All-NotIn, refl, true, ◌∙◌, dec_lt,
}
use yax.Base.Int.{◌+ℤ◌, pos}
use yax.Kernel.Sched.{
  Sched, update, search_ends, is_sem, join_queue, wake, semsignal_loop, semsignal,
}
use yax.Kernel.Sched.Ring.{findprev-search_ends, join_queue-IsRing}
use yax.Kernel.Sched.Queue.{semsignal_loop-wakes}
use yax.Kernel.Sched.Turns.{
  units-IsSound, Queued, IsFree, Waits, IsWaiting, IsSound, IsWaiting-outside, IsWaiting-update,
}

-- The state after one round, for a waiter that waits for this semaphore alone.
woken : ℕ → ℕ → ℕ → Sched → Sched
woken k i w s = record (join_queue k s w) {
  procs = update s.procs w (record (s.procs w) { blocked = none });
  sems = update s.sems i (record (s.sems i) { waiter = s.bnext w });
}

wake-woken :
    (k i n w : ℕ) (s : Sched)
    → Waits s.procs i w
    → search_ends k s ≡ true
    → wake k i n w s ≡ some (n - (s.procs w).blockedn, woken k i w s)
unfolding wake woken
wake-woken k i n w s b found =
    let waits : is_sem (s.procs w).blocked i ≡ true = ground (arith, b.0) in rw (waits, b.1, found)

woken-IsWaiting :
    (k i w : ℕ) (s : Sched) (xs vs : List ℕ) (ws : ℕ → List ℕ)
    → IsSound s xs ws
    → IsWaiting s i (w ∷ vs)
    → (j : ℕ) → IsWaiting (woken k i w s) j (update ws i vs j)
unfolding woken join_queue
woken-IsWaiting k i w s xs vs ws h v =
    let own = v.waits.0 in
    IsWaiting-update (woken k i w s) i ws vs
      (record {
        queued = subst (λ t. Queued s.bnext t vs) (ground arith) v.queued.1;
        distinct = v.distinct.1;
        waits =
            All-away (Waits s.procs i) (Waits (woken k i w s).procs i) w vs v.distinct.0
              (λ p d b. ground arith) v.waits.1;
      })
      (λ j d.
        IsWaiting-outside s (woken k i w s) w j (ws j)
          (All-NotIn (Waits s.procs j) w (ws j) (h.waiting j).waits
            (λ b. ground (arith, own.0, b.0)))
          (ground arith) (λ p e. refl) (λ p e b. ground arith) (h.waiting j))

-- The waiter that is woken is the last of the ring now, and off the semaphore's list.
woken-IsSound :
    (k i w : ℕ) (s : Sched) (xs vs : List ℕ) (ws : ℕ → List ℕ)
    → IsSound s xs ws
    → IsWaiting s i (w ∷ vs)
    → length xs < k
    → IsSound (woken k i w s) (xs ++ (w ∷ [])) (update ws i vs)
unfolding woken join_queue
woken-IsSound k i w s xs vs ws h v l =
    let own = v.waits.0 in
    let away : NotIn w (s.cur ∷ xs) =
      All-NotIn (IsFree s.procs) w (s.cur ∷ xs) h.free (λ b. ground (arith, own.0, b.0)) in
    let ring = join_queue-IsRing k s xs w h.ring away l in
    record {
      ring = record { linked = ring.linked; distinct = ring.distinct };
      null = In-snoc 0 w (s.cur ∷ xs) h.null;
      free =
          All-snoc (IsFree (woken k i w s).procs) (s.cur ∷ xs) w
            (All-map (IsFree s.procs) (IsFree (woken k i w s).procs) (s.cur ∷ xs)
              (λ p b. ground arith) h.free)
            (ground arith);
      waiting = woken-IsWaiting k i w s xs vs ws h v;
    }

-- The loop ends in a sound state, with fuel for its rounds and for the ring as it grows.
semsignal_loop-ends :
    (f k i n : ℕ) (s : Sched) (xs vs : List ℕ) (ws : ℕ → List ℕ)
    → IsSound s xs ws
    → IsWaiting s i vs
    → length vs < f
    → length xs + length vs < k
    → (s' : Sched) × (ys : List ℕ) × (us : ℕ → List ℕ) × (semsignal_loop f k i n s ≡ some s')
      × IsSound s' ys us
unfolding semsignal_loop
semsignal_loop-ends zero k i n s xs vs ws h v l m = absurd (omega arith)
semsignal_loop-ends (suc f) k i n s xs [] ws h v l m = (s, xs, ws, ground (arith, v.queued), h)
semsignal_loop-ends (suc f) k i n s xs (w ∷ vs) ws h v l m = elim (dec_lt 0 n) [
  | no no_more ↦ (s, xs, ws, ground (arith, v.queued.0), h)
  | yes more ↦
      let sound = woken-IsSound k i w s xs vs ws h v (omega arith) in
      let mine : IsWaiting (woken k i w s) i vs =
        subst (IsWaiting (woken k i w s) i) (ground arith) (sound.waiting i) in
      let (s', ys, us, e, goal) =
        semsignal_loop-ends f k i (n - (s.procs w).blockedn) (woken k i w s) (xs ++ (w ∷ [])) vs
          (update ws i vs) sound mine (omega arith) (omega (arith, length-append xs (w ∷ []))) in
      (
        s',
        ys,
        us,
        semsignal_loop-wakes f k i w n (n - (s.procs w).blockedn) s (woken k i w s) v.queued.0 more
              (wake-woken k i n w s v.waits.0
                (findprev-search_ends k s xs h.ring.linked h.ring.distinct.0 (omega arith)))
            ∙ e,
        goal,
      )
]

-- With fuel for the waiters, and for the ring with all of them, a signal ends, without a halt, in a
-- sound state.
pub semsignal-ends :
    (f k i n : ℕ) (s : Sched) (xs : List ℕ) (ws : ℕ → List ℕ)
    → IsSound s xs ws
    → length (ws i) < f
    → length xs + length (ws i) < k
    → (s' : Sched) × (ys : List ℕ) × (us : ℕ → List ℕ) × (semsignal f k i n s ≡ some s')
      × IsSound s' ys us
unfolding semsignal
semsignal-ends f k i n s xs ws h =
    let sound = units-IsSound s i ((s.sems i).sem +ℤ pos n) xs ws h in
    semsignal_loop-ends f k i n _ xs (ws i) ws sound (sound.waiting i)
