-- ===== src/Kernel/Procs/Steps.antt =====
-- src/multitask.c: the processes as a machine. A step is one operation of the running process or of
-- an interrupt, with the switch that it ends in; a search in the queue has as much fuel as it needs.
use yax.Base.{
  false, NotIn, subst, sym, ℕ, suc, ◌+◌, ◌≡◌, ◌≢◌, List, [], ◌∷◌, length, arith, Option, none, some,
  All-away, refl, inl, inr, ◌∙◌, ap, Bool-cases, ◌==◌, ◌≤◌,
}
use yax.Kernel.Sched.{
  nullproc, update, Sched, procswitchgut, seminit, semwait, semsignal, goes_on, switches, halts,
  spins, leave_queue, findprev,
}
use yax.Kernel.Sched.Ring.{findprev-next, findprev-search_ends, Linked}
use yax.Kernel.Sched.Turns.{
  Queued, IsFree, IsSound, IsSound-IsTurn, procswitchgut-IsSound, IsWaiting-outside, IsWaiting-same,
}
use yax.Kernel.Sched.Waits.{WaitEnds, semwait-ends, leave_queue-IsTurn}
use yax.Kernel.Sched.Signals.{semsignal-ends}
use yax.Kernel.Procs.{
  Procs, procsetup, procrforkgut, link_proc, Notified, dropped, handles, fresh_proc, exit_queue,
  proconnotify, notify, pending, end_note,
}
use yax.Kernel.Procs.Pids.{procrforkgut-IsRing}

-- Nothing leads to a new process.
pub record IsFresh (s : Sched) (new : ℕ) : Type 0 where
  pub next : (p : ℕ) → s.next p ≢ new
  pub bnext : (p : ℕ) → s.bnext p ≢ some new
  pub waiter : (i : ℕ) → (s.sems i).waiter ≢ some new

-- A process that leaves the run queue to wait has switched before an interrupt comes: the source ends its
-- critical section between the two, and an interrupt there that searches the queue is not a step.
-- The null process neither waits nor exits, a semaphore that is set up has no waiters, and notes
-- are for processes that do not wait.
pub data Step : Procs → Procs → Type 0 where
  turn : (sp : ℕ) (s : Procs) → Step s (record s { sched = procswitchgut sp s.sched })
  set_up :
      (i n : ℕ) (s : Procs)
      → (s.sched.sems i).waiter ≡ none
      → Step s (record s { sched = record s.sched { sems = update s.sched.sems i (seminit n) } })
  take :
      (k i n : ℕ) (s : Procs) (t : Sched)
      → s.sched.cur ≢ nullproc
      → ((j : ℕ) → semwait (k + j) i n s.sched ≡ goes_on t)
      → Step s (record s { sched = t })
  block :
      (k i n sp : ℕ) (s : Procs) (t : Sched)
      → s.sched.cur ≢ nullproc
      → ((j : ℕ) → semwait (k + j) i n s.sched ≡ switches t)
      → Step s (record s { sched = procswitchgut sp t })
  signal :
      (f k i n : ℕ) (s : Procs) (t : Sched)
      → ((j : ℕ) → semsignal (f + j) (k + j) i n s.sched ≡ some t)
      → Step s (record s { sched = t })
  fork : (k new : ℕ) (s : Procs) → IsFresh s.sched new → Step s (procrforkgut k new s).1
  exit :
      (k : ℕ) (s t : Procs)
      → s.sched.cur ≢ nullproc
      → ((j : ℕ) → exit_queue (k + j) s ≡ some t)
      → Step s (record t { sched = procswitchgut 0 t.sched })
  note :
      (p : ℕ) (s t : Procs) → (s.sched.procs p).blocked ≡ none → notify p s ≡ pending t → Step s t
  noted : (k sp : ℕ) (s t : Procs) → end_note k sp s ≡ some t → Step s t
  on_notify : (f : ℕ) (s : Procs) → Step s (proconnotify f s).1

pub data Reach (s : Procs) : Procs → Type 0 where
  here : Reach s s
  next : {t u : Procs} → Reach s t → Step t u → Reach s u

-- Some ring, and some lists of waiters, make the state sound.
abbrev Sound : Sched → Type 0
Sound s = (xs : List ℕ) × (ws : ℕ → List ℕ) × IsSound s xs ws

switch-Sound : (sp : ℕ) (s : Sched) → Sound s → Sound (procswitchgut sp s)
switch-Sound sp s (xs, ws, h) =
    let (y, ys, t) = IsSound-IsTurn s xs ws h in
    let (zs, goal) = procswitchgut-IsSound sp s y ys ws t in (zs, ws, goal)

-- A new process.
IsFresh-NotIn :
    (s : Sched) (new x stop : ℕ) (xs : List ℕ)
    → IsFresh s new
    → Linked s.next (x ∷ xs) stop
    → new ≢ x
    → NotIn new xs
IsFresh-NotIn s new x stop [] f l n = tt
IsFresh-NotIn s new x stop (y ∷ ys) f l n =
    let d : new ≢ y = λ e. f.next x (l.0 ∙ sym e) in (d, IsFresh-NotIn s new y stop ys f l.1 d)

IsFresh-last :
    (s : Sched) (new x stop : ℕ) (xs : List ℕ)
    → IsFresh s new
    → Linked s.next (x ∷ xs) stop
    → new ≢ stop
IsFresh-last s new x stop [] f l e = f.next x (l ∙ sym e)
IsFresh-last s new x stop (y ∷ ys) f l e = IsFresh-last s new y stop ys f l.1 e

IsFresh-Queued :
    (s : Sched) (new : ℕ) (first : Option ℕ) (ws : List ℕ)
    → IsFresh s new
    → first ≢ some new
    → Queued s.bnext first ws
    → NotIn new ws
IsFresh-Queued s new first [] f n q = tt
IsFresh-Queued s new first (x ∷ xs) f n q =
    ((λ e. n (q.0 ∙ ap some (sym e))), IsFresh-Queued s new (s.bnext x) xs f (f.bnext x) q.1)

fork-Sound :
    (k new : ℕ) (s : Procs)
    → IsFresh s.sched new
    → Sound s.sched
    → Sound (procrforkgut k new s).1.sched
unfolding procrforkgut link_proc
fork-Sound k new s f (xs, ws, h) =
    let out = IsFresh-last s.sched new s.sched.cur s.sched.cur xs f h.ring.linked in
    let away : NotIn new (s.sched.cur ∷ xs) =
      (out, IsFresh-NotIn s.sched new s.sched.cur s.sched.cur xs f h.ring.linked out) in
    let ring = procrforkgut-IsRing k new s xs h.ring away in
    let s' = (procrforkgut k new s).1.sched in
    let others =
      All-away (IsFree s.sched.procs) (IsFree s'.procs) new (s.sched.cur ∷ xs) away
        (λ p d b. ground arith) h.free in
    (
      new ∷ xs,
      ws,
      record {
        ring = ring;
        null = elim h.null [ inl e ↦ inl e | inr i ↦ inr (inr i) ];
        free = (others.0, (unfold fresh_proc in ground arith, others.1));
        waiting = λ i.
            IsWaiting-outside s.sched s' new i (ws i)
              (IsFresh-Queued s.sched new (s.sched.sems i).waiter (ws i) f (f.waiter i)
                (h.waiting i).queued)
              refl (λ p d. refl) (λ p d b. ground arith) (h.waiting i);
      },
    )

-- How each operation ends in a sound state, and that it does not halt.
abbrev Ends : Option Sched → Type 0
Ends none = ⊥
Ends (some s) = Sound s

abbrev ExitEnds : Option Procs → Type 0
ExitEnds none = ⊥
ExitEnds (some s) = Sound (procswitchgut 0 s.sched)

abbrev NoteEnds : Notified → Type 0
NoteEnds (dropped s) = Sound s.sched
NoteEnds (handles s) = Sound s.sched
NoteEnds (pending s) = Sound s.sched

set_up-Sound :
    (i n : ℕ) (s : Sched)
    → (s.sems i).waiter ≡ none
    → Sound s
    → Sound (record s { sems = update s.sems i (seminit n) })
unfolding seminit
set_up-Sound i n s e (xs, ws, h) = (
  xs,
  ws,
  record {
    ring = record { linked = h.ring.linked; distinct = h.ring.distinct };
    null = h.null;
    free = h.free;
    waiting = λ j.
        IsWaiting-same s (record s { sems = update s.sems i (seminit n) }) j (ws j) (ground arith)
          refl (λ p w. w) (h.waiting j);
  },
)

semwait-Ends :
    (i n : ℕ) (s : Sched)
    → s.cur ≢ nullproc
    → Sound s
    → (k : ℕ) × (xs : List ℕ) × (ws : ℕ → List ℕ) × ((j : ℕ)
        → k ≤ j
        → WaitEnds xs ws (semwait j i n s))
semwait-Ends i n s c (xs, ws, h) =
    (suc (length xs), xs, ws, λ j l. semwait-ends j i n s xs ws h c (omega arith))

semsignal-Ends :
    (i n : ℕ) (s : Sched)
    → Sound s
    → (k : ℕ) × ((e f : ℕ) → k ≤ e → k ≤ f → Ends (semsignal e f i n s))
semsignal-Ends i n s (xs, ws, h) = (
  suc (length xs + length (ws i)),
  λ e f l m.
      let (s', ys, us, r, goal) = semsignal-ends e f i n s xs ws h (omega arith) (omega arith) in
      subst Ends (sym r) (ys, us, goal),
)

exit_queue-Ends :
    (s : Procs)
    → s.sched.cur ≢ nullproc
    → Sound s.sched
    → (k : ℕ) × ((j : ℕ) → k ≤ j → ExitEnds (exit_queue j s))
exit_queue-Ends s c ([], ws, h) = elim h.null [ inl e ↦ absurd (c (sym e)) | inr e ↦ absurd e ]
exit_queue-Ends s c (y ∷ ys, ws, h) = (
  suc (suc (length ys)),
  λ j l.
      let found =
        findprev-search_ends j s.sched (y ∷ ys) h.ring.linked h.ring.distinct.0 (omega arith) in
      let leaves : exit_queue j s ≡ some (record s { sched = leave_queue j s.sched }) =
        unfold exit_queue in ground (arith, h.free.0, found) in
      let (zs, goal) = procswitchgut-IsSound 0 (leave_queue j s.sched) y ys ws (
        leave_queue-IsTurn j s.sched y ys ws h.ring.linked h.ring.distinct h.null c h.free.1
          h.waiting (omega arith)) in
      subst ExitEnds (sym leaves) (zs, ws, goal),
)

notify-Ends :
    (p : ℕ) (s : Procs) → (s.sched.procs p).blocked ≡ none → Sound s.sched → NoteEnds (notify p s)
unfolding notify
notify-Ends p s e h = elim (Bool-cases (s.handling p)) [
  | inl c ↦ rw c h
  | inr c ↦ elim (Bool-cases (p == s.sched.cur)) [ inl d ↦ rw (c, d) h | inr d ↦ rw (c, d, e) h ]
]

end_note-Sound : (k sp : ℕ) (s t : Procs) → end_note k sp s ≡ some t → Sound s.sched → Sound t.sched
unfolding end_note
end_note-Sound k sp s t e (xs, ws, h) =
    let free : (s.sched.procs s.sched.cur).blocked ≡ none = h.free.0.0 in
    let same : record s { handling = update s.handling s.sched.cur false } ≡ t = ground arith in
    subst (λ (u : Procs). Sound u.sched) same (xs, ws, h)

Step-Sound : {s t : Procs} → Step s t → Sound s.sched → Sound t.sched
Step-Sound (turn sp s) h = switch-Sound sp s.sched h
Step-Sound (set_up i n s e) h = set_up-Sound i n s.sched e h
Step-Sound (take k i n s t c e) h =
    let (m, xs, ws, ends) = semwait-Ends i n s.sched c h in
    (xs, ws, subst (WaitEnds xs ws) (e m) (ends (k + m) (omega arith)))
Step-Sound (block k i n sp s t c e) h =
    let (m, xs, ws, ends) = semwait-Ends i n s.sched c h in
    let (y, ys, vs, r) = subst (WaitEnds xs ws) (e m) (ends (k + m) (omega arith)) in
    let (zs, goal) = procswitchgut-IsSound sp t y ys vs r in (zs, vs, goal)
Step-Sound (signal f k i n s t e) h =
    let (m, ends) = semsignal-Ends i n s.sched h in
    subst Ends (e m) (ends (f + m) (k + m) (omega arith) (omega arith))
Step-Sound (fork k new s f) h = fork-Sound k new s f h
Step-Sound (exit k s t c e) h =
    let (m, ends) = exit_queue-Ends s c h in subst ExitEnds (e m) (ends (k + m) (omega arith))
Step-Sound (note p s t b e) h = subst NoteEnds e (notify-Ends p s b h)
Step-Sound (noted k sp s t e) h = end_note-Sound k sp s t e h
Step-Sound (on_notify f s) h = unfold proconnotify in h

procsetup-Sound : Sound procsetup.sched
procsetup-Sound = (
  [],
  λ i. [],
  record {
    ring = record { linked = refl; distinct = (tt, tt) };
    null = inl refl;
    free = ((refl, refl), tt);
    waiting = λ i. record { queued = refl; distinct = tt; waits = tt };
  },
)

Reach-Sound : {s t : Procs} → Sound s.sched → Reach s t → Sound t.sched
Reach-Sound h here = h
Reach-Sound h (next r st) = Step-Sound st (Reach-Sound h r)

-- In every state that the processes come to from the start, by whatever sequence of switches, waits,
-- signals, forks, exits and notes (the null process neither waits nor exits, a semaphore is set up
-- without waiters, nothing leads to a new process, a note goes to a process that does not wait, and no
-- interrupt comes between a wait's leaving the run queue and its switch),
-- the run queue is a ring that holds the running and the null process, each process once, and only
-- ones that wait for nothing, and each semaphore's list holds, once each, processes that wait for it
-- alone.
pub Reach-IsSound :
    {s : Procs} → Reach procsetup s → (xs : List ℕ) × (ws : ℕ → List ℕ) × IsSound s.sched xs ws
Reach-IsSound r = Reach-Sound procsetup-Sound r

-- In every state that the processes come to from the start by these steps, with no interrupt between a
-- wait's leaving the run queue and its switch, no operation stops the kernel, and none loops for ever:
-- with enough fuel, and with any more, a wait of a process other than the null process goes on or
-- switches, a signal ends, and so does an exit of such a process, and the search of the run queue that
-- each of them makes, for the process before the running one, ends at a process that leads to that.
pub Reach-never_halts :
    {s : Procs} (i n : ℕ)
    → Reach procsetup s
    → (s.sched.cur ≢ nullproc
        → (k : ℕ) × ((j : ℕ)
            → k ≤ j
            → (semwait j i n s.sched ≢ halts) × (semwait j i n s.sched ≢ spins)))
      × ((k : ℕ) × ((e f : ℕ) → k ≤ e → k ≤ f → semsignal e f i n s.sched ≢ none))
      × (s.sched.cur ≢ nullproc → (k : ℕ) × ((j : ℕ) → k ≤ j → exit_queue j s ≢ none))
      × ((k : ℕ) × ((j : ℕ) → k ≤ j → s.sched.next (findprev j s.sched s.sched.cur) ≡ s.sched.cur))
Reach-never_halts {s} i n r =
    let h = Reach-Sound procsetup-Sound r in
    (
      λ c.
          let (k, xs, ws, ends) = semwait-Ends i n s.sched c h in
          (
            k,
            λ j l. (
              (λ e. subst (WaitEnds xs ws) e (ends j l)),
              (λ e. subst (WaitEnds xs ws) e (ends j l)),
            ),
          ),
      let (k, ends) = semsignal-Ends i n s.sched h in (k, λ e f l m q. subst Ends q (ends e f l m)),
      λ c. let (k, ends) = exit_queue-Ends s c h in (k, λ j l e. subst ExitEnds e (ends j l)),
      let (xs, ws, v) = h in
          (
            suc (length xs),
            λ j l. findprev-next j s.sched xs v.ring.linked v.ring.distinct.0 (omega arith),
          ),
    )
