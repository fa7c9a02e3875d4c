-- ===== src/Kernel/Sched/Waits.antt =====
-- What a wait, and a process that leaves, do to a sound state of the scheduler.
use yax.Base.{
  NotIn, Distinct, subst, sym, ℕ, suc, ◌<◌, ◌≡◌, ◌≢◌, List, [], ◌∷◌, length, arith, some, In, All,
  All-away, All-NotIn, refl, inl, inr, Bool-cases, not,
}
use yax.Base.Int.{is_neg, minus}
use yax.Kernel.Sched.{
  nullproc, Sched, Proc, update, leave_queue, block_on, semwait, goes_on, switches, halts, spins,
  Waited,
}
use yax.Kernel.Sched.Ring.{findprev-search_ends, Linked, leave_queue-Linked}
use yax.Kernel.Sched.Turns.{
  units-IsSound, Queued, IsFree, Waits, IsWaiting, IsSound, IsTurn, IsWaiting-outside,
  IsWaiting-same, IsWaiting-update,
}

-- With enough fuel, a process that leaves, which is not the null process, leads to the others.
pub leave_queue-IsTurn :
    (k : ℕ) (s : Sched) (y : ℕ) (ys : List ℕ) (ws : ℕ → List ℕ)
    → Linked s.next (s.cur ∷ y ∷ ys) s.cur
    → Distinct (s.cur ∷ y ∷ ys)
    → In nullproc (s.cur ∷ y ∷ ys)
    → s.cur ≢ nullproc
    → All (IsFree s.procs) (y ∷ ys)
    → ((i : ℕ) → IsWaiting s i (ws i))
    → suc (length ys) < k
    → IsTurn (leave_queue k s) y ys ws
unfolding leave_queue
leave_queue-IsTurn k s y ys ws l d (inl e) c f w h = absurd (c (sym e))
leave_queue-IsTurn k s y ys ws l d (inr n) c f w h =
    let (links, next) = leave_queue-Linked k s y ys (record { linked = l; distinct = d }) h in
    record {
      next = next;
      linked = links;
      distinct = d.1;
      null = n;
      free = f;
      waiting = λ i. IsWaiting-same s (leave_queue k s) i (ws i) refl refl (λ p v. v) (w i);
    }

-- A wait ends in a sound state, or ready for a switch; it does not halt, nor
-- search for ever.
abbrev pub WaitEnds : List ℕ → (ℕ → List ℕ) → Waited → Type 0
WaitEnds xs ws (goes_on s) = IsSound s xs ws
WaitEnds xs ws (switches s) = (y : ℕ) × (ys : List ℕ) × (vs : ℕ → List ℕ) × IsTurn s y ys vs
WaitEnds xs ws halts = ⊥
WaitEnds xs ws spins = ⊥

-- The state of the caller that is the first waiter now.
abbrev blocked_state : ℕ → ℕ → Sched → Sched
blocked_state i n s = record s {
  bnext = update s.bnext s.cur (s.sems i).waiter;
  sems = update s.sems i (record { sem = minus ((s.sems i).sem) n; waiter = some s.cur });
  procs = update s.procs s.cur (record (s.procs s.cur) { blocked = some i; blockedn = n });
}

blocked_state-IsWaiting :
    (i n : ℕ) (s : Sched) (xs : List ℕ) (ws : ℕ → List ℕ)
    → IsSound s xs ws
    → (j : ℕ) → IsWaiting (blocked_state i n s) j (update ws i (s.cur ∷ ws i) j)
blocked_state-IsWaiting i n s xs ws h =
    let s' = blocked_state i n s in
    let away : (j : ℕ) → NotIn s.cur (ws j) = λ j.
      All-NotIn (Waits s.procs j) s.cur (ws j) (h.waiting j).waits
        (λ w. ground (arith, h.free.0, w.0)) in
    let old : (j : ℕ) → IsWaiting (record s' { sems = s.sems }) j (ws j) = λ j.
      IsWaiting-outside s (record s' { sems = s.sems }) s.cur j (ws j) (away j) refl
        (λ p d. ground arith) (λ p d w. ground arith) (h.waiting j) in
    IsWaiting-update s' i ws (s.cur ∷ ws i)
      (record {
        queued =
            (ground arith, subst (λ t. Queued s'.bnext t (ws i)) (ground arith) (old i).queued);
        distinct = (away i, (h.waiting i).distinct);
        waits = (ground (arith, h.free.0.1), (old i).waits);
      })
      (λ j d.
        IsWaiting-same (record s' { sems = s.sems }) s' j (ws j) (ground arith) refl (λ p w. w)
          (old j))

-- With more fuel than there are others in the ring.
pub semwait-ends :
    (k i n : ℕ) (s : Sched) (xs : List ℕ) (ws : ℕ → List ℕ)
    → IsSound s xs ws
    → s.cur ≢ nullproc
    → length xs < k
    → WaitEnds xs ws (semwait k i n s)
unfolding semwait
semwait-ends k i n s [] ws h c l = elim h.null [ inl e ↦ absurd (c (sym e)) | inr e ↦ absurd e ]
semwait-ends k i n s (y ∷ ys) ws h c l =
    elim (Bool-cases (not (is_neg (minus ((s.sems i).sem) n)))) [
      | inl e ↦ rw e (units-IsSound s i (minus (s.sems i).sem n) (y ∷ ys) ws h)
      | inr e ↦
          let p : Proc = record (s.procs s.cur) { blocked = some i; blockedn = n } in
          let blocks : block_on (s.procs s.cur) i n ≡ some p =
            unfold block_on in ground (arith, h.free.0) in
          let found = findprev-search_ends k s (y ∷ ys) h.ring.linked h.ring.distinct.0 l in
          rw (e, blocks, found)
            (
              y,
              ys,
              update ws i (s.cur ∷ ws i),
              leave_queue-IsTurn k (blocked_state i n s) y ys (update ws i (s.cur ∷ ws i))
                  h.ring.linked h.ring.distinct h.null c
                  (All-away (IsFree s.procs) (IsFree (blocked_state i n s).procs) s.cur (y ∷ ys)
                    h.ring.distinct.0 (λ p d w. ground arith) h.free.1)
                  (blocked_state-IsWaiting i n s (y ∷ ys) ws h) l,
            )
    ]
