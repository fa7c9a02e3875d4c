-- ===== src/Kernel/Sched.antt =====
-- src/multitask.c: the circular run queue and the semaphores. A process is a number, 0 the null
-- process, a semaphore is a number too. Each function runs with interrupts off, so it is one step. The
-- stacks, page directories and port bitmaps that a switch exchanges are not modelled.
pub mod Ring
pub mod Queue
pub mod Turns
pub mod Waits
pub mod Signals
mod Tests
use yax.Base.{
  ℕ, zero, suc, ◌+◌, ◌-◌, Bool, true, false, not, Option, none, some, List, [], ◌∷◌, ◌&&◌, ◌||◌,
  ltb, ◌==◌, if◌then◌else◌,
}
use yax.Base.Int.{minus, ℤ, pos, sub_ℕ, pos_part, neg_part, is_neg, ◌+ℤ◌}

abbrev pub nullproc : ℕ
nullproc = 0

pub record Proc : Type 0 where
  pub quantum : ℤ
  pub priority : ℤ
  pub blocked : Option ℕ
  pub blockedn : ℕ
  pub blocked2 : Option ℕ
  pub blockedn2 : ℕ
  pub sp : ℕ

pub record Sem : Type 0 where
  pub sem : ℤ
  pub waiter : Option ℕ

-- `next` and `bnext` are the links of the processes in the run queue and in a semaphore's list.
pub record Sched : Type 0 where
  pub cur : ℕ
  pub next : ℕ → ℕ
  pub bnext : ℕ → Option ℕ
  pub procs : ℕ → Proc
  pub sems : ℕ → Sem

abbrev pub update {ℓ} : {A : Type ℓ} → (ℕ → A) → ℕ → A → ℕ → A
update f i v j = if j == i then v else f j

abbrev pub is_sem : Option ℕ → ℕ → Bool
is_sem none s = false
is_sem (some t) s = t == s

abbrev pub is_none : Option ℕ → Bool
is_none none = true
is_none (some t) = false

-- The loop of `findprev`, with fuel: a queue of n processes takes n rounds at most. Without enough fuel it
-- stops at a process that does not lead to `p`.
unfoldable pub findprev_from : ℕ → (ℕ → ℕ) → ℕ → ℕ → ℕ
findprev_from zero next prev p = prev
findprev_from (suc k) next prev p =
    let rest = findprev_from k next (next prev) p in if next prev == p then prev else rest

unfoldable pub findprev : ℕ → Sched → ℕ → ℕ
findprev k s p = findprev_from k s.next p p

-- `procswitchgut`: the next process that is not the null process, which runs only alone.
unfoldable pub procswitchgut : ℕ → Sched → Sched
procswitchgut sp s =
    let procs =
      update s.procs s.cur (record (s.procs s.cur) { quantum = (s.procs s.cur).priority }) in
    let first = s.next s.cur in
    let cur = (if first == nullproc then s.next first else first) in
    record s { cur = cur; procs = update procs s.cur (record (procs s.cur) { sp = sp }) }

unfoldable pub seminit : ℕ → Sem
seminit n = record { sem = pos n; waiter = none }

-- How `semwait` ends: the caller goes on, it has left the run queue and switches, the kernel halts, or it
-- searches the run queue without an end (or without enough fuel).
pub data Waited : Type 0 where
  goes_on : Sched → Waited
  switches : Sched → Waited
  halts : Waited
  spins : Waited

-- Whether the search for the process before the running one has ended within the fuel.
unfoldable pub search_ends : ℕ → Sched → Bool
search_ends k s = s.next (findprev k s s.cur) == s.cur

-- The caller leaves the run queue.
unfoldable pub leave_queue : ℕ → Sched → Sched
leave_queue k s = let p = findprev k s s.cur in record s { next = update s.next p (s.next s.cur) }

-- `none` is a process that waits twice already.
unfoldable pub block_on : Proc → ℕ → ℕ → Option Proc
block_on p i n =
    if is_none p.blocked && is_none p.blocked2
    then some (record p { blocked = some i; blockedn = n })
    else if is_none p.blocked2
    then some (record p { blocked2 = some i; blockedn2 = n })
    else none

unfoldable pub semwait : ℕ → ℕ → ℕ → Sched → Waited
semwait k i n s =
    let left = minus ((s.sems i).sem) n in
    let s1 = record s { sems = update s.sems i (record (s.sems i) { sem = left }) } in
    if not (is_neg left) then goes_on s1 else elim (block_on (s.procs s.cur) i n) [
      | none ↦ halts
      | some p ↦
          if search_ends k s
          then switches (
              leave_queue k (record s1 {
                bnext = update s.bnext s.cur (s.sems i).waiter;
                sems = update s.sems i (record { sem = left; waiter = some s.cur });
                procs = update s.procs s.cur p;
              }))
          else spins
    ]

-- A process goes to the end of the run queue, just before the one that runs.
unfoldable pub join_queue : ℕ → Sched → ℕ → Sched
join_queue k s w =
    let p = findprev k s s.cur in record s { next = update (update s.next w s.cur) p w }

-- One round of `semsignal`, for the waiter `w`: the state and the count left; `none` is a halt, or a
-- search that does not end.
unfoldable pub wake : ℕ → ℕ → ℕ → ℕ → Sched → Option (ℕ × Sched)
wake k i n w s =
    let p = s.procs w in
    if not (is_sem p.blocked i) && not (is_sem p.blocked2 i)
    then none
    else if not (is_sem p.blocked i && not (is_none p.blocked2)) && not (search_ends k s)
    then none
    else let s1 =
        (if is_sem p.blocked i && not (is_none p.blocked2) then s else join_queue k s w) in
      let p' =
        (if is_sem p.blocked i
          then record p { blocked = none }
          else record p { blocked2 = none }) in
      let m = (if is_sem p.blocked i then p.blockedn else p.blockedn2) in
      some (
        n - m,
        record s1 {
          procs = update s.procs w p';
          sems = update s.sems i (record (s.sems i) { waiter = s.bnext w });
        },
      )

-- The loop of `semsignal`, with fuel for its rounds; the count is used for its sign only.
unfoldable pub semsignal_loop : ℕ → ℕ → ℕ → ℕ → Sched → Option Sched
semsignal_loop zero k i n s = none
semsignal_loop (suc f) k i n s = elim ((s.sems i).waiter) [
  | none ↦ some s
  | some w ↦ elim (ltb 0 n) [
    | false ↦ some s
    | true ↦ elim (wake k i n w s) [ none ↦ none | some (m, s') ↦ semsignal_loop f k i m s' ]
  ]
]

unfoldable pub semsignal : ℕ → ℕ → ℕ → ℕ → Sched → Option Sched
semsignal f k i n s =
    semsignal_loop f k i n
      (record s { sems = update s.sems i (record (s.sems i) { sem = (s.sems i).sem +ℤ pos n }) })
