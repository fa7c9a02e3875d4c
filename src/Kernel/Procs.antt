-- ===== src/Kernel/Procs.antt =====
-- src/multitask.c: the processes by their numbers, and how one joins and leaves them. `nextpid` links
-- the processes in the order of their numbers from the null process on. The memory, the stacks, the
-- ports and the open files of a process are not part of this module.
pub mod Pids
pub mod Steps
mod Tests
use yax.Base.{
  ℕ, zero, suc, ◌+◌, Bool, true, false, not, Option, none, some, List, [], ◌∷◌, ◌&&◌, ◌||◌, ltb,
  ◌==◌, if◌then◌else◌,
}
use yax.Base.Int.{pos}
use yax.Kernel.Sched.{
  procswitchgut, Sched, Sem, Proc, nullproc, update, is_none, search_ends, leave_queue,
}

pub record Procs : Type 0 where
  pub sched : Sched
  pub nextpid : ℕ → Option ℕ
  pub pid : ℕ → ℕ
  pub last_pid : ℕ
  pub handler : ℕ → ℕ
  pub handling : ℕ → Bool

-- The null process alone; the store of the others is clear, and the next number is 1.
abbrev pub procsetup : Procs
procsetup = record {
  sched = record {
    cur = nullproc;
    next = λ p. nullproc;
    bnext = λ p. none;
    procs = λ p. record {
      quantum = pos 0;
      priority = pos 5;
      blocked = none;
      blockedn = 0;
      blocked2 = none;
      blockedn2 = 0;
      sp = 0;
    };
    sems = λ i. record { sem = pos 0; waiter = none };
  };
  nextpid = λ p. none;
  pid = λ p. 0;
  last_pid = 1;
  handler = λ p. 0;
  handling = λ p. false;
}

-- The loop of `findpid`, on fuel, from a process on.
unfoldable pub findpid_from : ℕ → ℕ → Procs → Option ℕ → Option ℕ
findpid_from zero pid s p = none
findpid_from (suc k) pid s none = none
findpid_from (suc k) pid s (some p) =
    let rest = findpid_from k pid s (s.nextpid p) in if s.pid p == pid then some p else rest

unfoldable pub findpid : ℕ → ℕ → Procs → Option ℕ
unfolding findpid_from
findpid k pid s = findpid_from k pid s (some nullproc)

-- The last process before the place of a number.
unfoldable pub pid_place : ℕ → ℕ → Procs → ℕ → ℕ
pid_place zero pid s p = p
pid_place (suc k) pid s p = elim (s.nextpid p) [
  | none ↦ p
  | some q ↦ let rest = pid_place k pid s q in if ltb (s.pid q) pid then rest else p
]

-- The new process has the next turn, and its place among the numbers.
unfoldable pub link_proc : ℕ → ℕ → Procs → Procs
unfolding pid_place
link_proc k new s =
    let cur = s.sched.cur in
    let p = pid_place k (s.pid new) s nullproc in
    record s {
      sched = record s.sched { next = update (update s.sched.next new (s.sched.next cur)) cur new };
      nextpid = update (update s.nextpid new (s.nextpid p)) p (some new);
    }

-- A process that `calloc` has cleared, with the priority of the running one; its stack is given elsewhere.
unfoldable pub fresh_proc : Sched → ℕ → Proc
fresh_proc s new = record {
  quantum = pos 0;
  priority = (s.procs s.cur).priority;
  blocked = none;
  blockedn = 0;
  blocked2 = none;
  blockedn2 = 0;
  sp = (s.procs new).sp;
}

-- `procrforkgut`: the number, the handler and the links of the new process, with the number that it
-- returns.
unfoldable pub procrforkgut : ℕ → ℕ → Procs → ℕ × Procs
unfolding link_proc
procrforkgut k new s =
    let s1 = record s {
      pid = update s.pid new s.last_pid;
      last_pid = s.last_pid + 1;
      handler = update s.handler new (s.handler s.sched.cur);
      handling = update s.handling new (s.handling s.sched.cur);
      sched = record s.sched { procs = update s.sched.procs new (fresh_proc s.sched new) };
    } in
    (s.last_pid, link_proc k new s1)

-- What an exit does to the queue and to a semaphore that the process waits for (the sleepers are in
-- Kernel.Sleep); `none` is the halt where it waits for two, or a search that does not end.
unfoldable pub exit_queue : ℕ → Procs → Option Procs
unfolding leave_queue
exit_queue k s =
    let cur = s.sched.cur in
    let p = s.sched.procs cur in
    let left = leave_queue k s.sched in
    if not (search_ends k s.sched) || not (is_none p.blocked2) then none else elim p.blocked [
      | none ↦ some (record s { sched = left })
      | some i ↦ some (record s {
        sched = record left {
          sems = update left.sems i (record (left.sems i) { waiter = none });
          procs = update left.procs cur (record p { blocked = none });
        };
      })
    ]

-- The old handler is returned.
unfoldable pub proconnotify : ℕ → Procs → ℕ × Procs
proconnotify f s = (s.handler s.sched.cur, record s { handler = update s.handler s.sched.cur f })

-- How a note ends: it is dropped, the running process handles it, or another one will when it runs.
pub data Notified : Type 0 where
  dropped : Procs → Notified
  handles : Procs → Notified
  pending : Procs → Notified

-- A process that waits has the next turn.
unfoldable pub notify : ℕ → Procs → Notified
notify p s =
    let cur = s.sched.cur in
    let s1 = record s { handling = update s.handling p true } in
    let queued = record s1 {
      sched = record s.sched { next = update (update s.sched.next p (s.sched.next cur)) cur p };
    } in
    if s.handling p
    then dropped s
    else if p == cur
    then handles s
    else if is_none (s.sched.procs p).blocked
    then pending s1
    else pending queued

unfoldable pub procnotify : ℕ → ℕ → Procs → Notified
unfolding findpid notify
procnotify k pid s = elim (findpid k pid s) [ none ↦ dropped s | some p ↦ notify p s ]

-- The end of `prochandlegut`: a process that waits, and has run for its handler alone, leaves the queue
-- again and switches; `none` is a search that does not end.
unfoldable pub end_note : ℕ → ℕ → Procs → Option Procs
unfolding leave_queue
end_note k sp s =
    let s1 = record s { handling = update s.handling s.sched.cur false } in
    if is_none (s.sched.procs s.sched.cur).blocked
    then some s1
    else if search_ends k s.sched
    then some (record s1 { sched = procswitchgut sp (leave_queue k s.sched) })
    else none
