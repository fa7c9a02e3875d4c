-- ===== src/Kernel/Procs/Tests.antt =====
-- Two processes and a new one.
use yax.Base.{
  suc, subst, ◌+◌, ◌≤◌, ◌≢◌, List, ℕ, ◌≡◌, refl, false, none, some, [], ◌∷◌, arith, if◌then◌else◌,
  ◌==◌,
}
use yax.Base.Int.{pos, minus}
use yax.Kernel.Sched.Ring.{IsRing}
use yax.Kernel.Procs.{procswitchgut, procsetup, Procs, procrforkgut, findpid}
use yax.Kernel.Sched.{
  search_ends, Waited, Sched, procswitchgut, semwait, semsignal, goes_on, switches, halts, spins,
  nullproc, leave_queue, block_on, findprev, findprev_from,
}
use yax.Kernel.Procs.{procsetup, link_proc, pid_place, fresh_proc, exit_queue}
use yax.Kernel.Procs.Steps.{Reach, here, next, fork, turn, block, Reach-IsSound, Reach-never_halts}
use yax.Kernel.Sched.Turns.{IsSound}
use yax.Kernel.Procs.Pids.{procrforkgut-findpid}

-- The null process and process 1, which runs.
abbrev two : Procs
two = record {
  sched = record {
    cur = 1;
    next = λ p. if p == 1 then 0 else 1;
    bnext = λ p. none;
    procs = λ p. record {
      quantum = pos 0;
      priority = pos 0;
      blocked = none;
      blockedn = 0;
      blocked2 = none;
      blockedn2 = 0;
      sp = 0;
    };
    sems = λ i. record { sem = pos 0; waiter = none };
  };
  nextpid = λ p. if p == 0 then some 1 else none;
  pid = λ p. p;
  last_pid = 2;
  handler = λ p. 0;
  handling = λ p. false;
}

two-IsRing : IsRing two.sched (0 ∷ [])
two-IsRing = record { linked = (refl, refl); distinct = omega arith }

procrforkgut-findpid_example : let (pid, s') = procrforkgut 4 5 two in findpid 5 pid s' ≡ some 5
procrforkgut-findpid_example =
    procrforkgut-findpid 4 5 two (1 ∷ []) (refl, refl) (omega arith) (omega arith) refl
      (omega arith) (omega arith)

-- Process 7 is made, runs, and waits for semaphore 3; the null process signals it.
forked : Reach procsetup (procrforkgut 1 7 procsetup).1
forked = next here (
    fork 1 7 procsetup (record {
      next = λ p. omega arith;
      bnext = λ p e. ground arith;
      waiter = λ i e. ground arith;
    }))

abbrev runs : Procs
runs = record (procrforkgut 1 7 procsetup).1 {
  sched = procswitchgut 9 (procrforkgut 1 7 procsetup).1.sched;
}

to_runs : Reach procsetup runs
to_runs = next forked (turn 9 (procrforkgut 1 7 procsetup).1)

runs_cur : runs.sched.cur ≡ 7
unfolding procswitchgut procrforkgut link_proc pid_place
runs_cur = refl

abbrev state_of : Waited → Sched
state_of (goes_on s) = s
state_of (switches s) = s
state_of halts = procsetup.sched
state_of spins = procsetup.sched

abbrev after_wait : Sched
after_wait = state_of (semwait 3 3 1 runs.sched)

after_wait_lem : (j : ℕ) → semwait (3 + j) 3 1 runs.sched ≡ switches after_wait
unfolding semwait procswitchgut procrforkgut link_proc pid_place search_ends leave_queue findprev
    findprev_from block_on fresh_proc minus
after_wait_lem j =
    let three_more : suc (suc (suc j)) ≡ 3 + j = omega arith in
    subst (λ k. semwait k 3 1 runs.sched ≡ switches after_wait) three_more refl

waited : Reach procsetup (record runs { sched = procswitchgut 5 after_wait })
waited = next to_runs (block 3 3 1 5 runs after_wait (rw runs_cur (omega arith)) after_wait_lem)

Reach-IsSound_example :
    (xs : List ℕ) × (ws : ℕ → List ℕ) × IsSound (procswitchgut 5 after_wait) xs ws
Reach-IsSound_example = Reach-IsSound waited

Reach-never_halts_example :
    (runs.sched.cur ≢ nullproc
      → (k : ℕ) × ((j : ℕ)
          → k ≤ j
          → (semwait j 3 1 runs.sched ≢ halts) × (semwait j 3 1 runs.sched ≢ spins)))
    × ((k : ℕ) × ((e f : ℕ) → k ≤ e → k ≤ f → semsignal e f 3 1 runs.sched ≢ none))
    × (runs.sched.cur ≢ nullproc → (k : ℕ) × ((j : ℕ) → k ≤ j → exit_queue j runs ≢ none))
    × ((k : ℕ) × ((j : ℕ)
          → k ≤ j
          → runs.sched.next (findprev j runs.sched runs.sched.cur) ≡ runs.sched.cur))
Reach-never_halts_example = Reach-never_halts 3 1 to_runs
