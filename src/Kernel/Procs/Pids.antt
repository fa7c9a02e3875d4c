-- ===== src/Kernel/Procs/Pids.antt =====
-- src/multitask.c: a new process in the run queue and among the numbers.
use yax.Base.{
  sym, ◌++◌, ℕ, zero, suc, ◌+◌, ◌<◌, ◌≡◌, refl, true, false, Option, none, some, List, [], ◌∷◌, ltb,
  ◌==◌, arith, length, NotIn, Distinct,
}
use yax.Kernel.Sched.{nullproc, update}
use yax.Kernel.Sched.Ring.{Linked, IsRing, last, NotIn-last}
use yax.Kernel.Procs.{Procs, findpid_from, findpid, pid_place, link_proc, procrforkgut, fresh_proc}

Linked-away :
    (next : ℕ → ℕ) (x : ℕ) (xs : List ℕ) (p v stop : ℕ)
    → NotIn p (x ∷ xs)
    → Linked next (x ∷ xs) stop
    → Linked (update next p v) (x ∷ xs) stop
Linked-away next x [] p v stop n l = ground arith
Linked-away next x (y ∷ ys) p v stop n l = (ground arith, Linked-away next y ys p v stop n.1 l.1)

Linked-front :
    (next : ℕ → ℕ) (cur new : ℕ) (xs : List ℕ)
    → Linked next (cur ∷ xs) cur
    → NotIn cur xs
    → NotIn new (cur ∷ xs)
    → Linked (update (update next new (next cur)) cur new) (cur ∷ new ∷ xs) cur
Linked-front next cur new [] l c n = (ground arith, ground arith)
Linked-front next cur new (y ∷ ys) l c n =
    let one = Linked-away next y ys new (next cur) cur n.1 l.1 in
    (ground arith, (ground arith, Linked-away (update next new (next cur)) y ys cur new cur c one))

-- Where the run queue is a ring without the new process, it is one afterwards, in which the new process
-- has the next turn and the others keep their order.
pub procrforkgut-IsRing :
    (k new : ℕ) (s : Procs) (xs : List ℕ)
    → IsRing s.sched xs
    → NotIn new (s.sched.cur ∷ xs)
    → let (pid, s') = procrforkgut k new s in IsRing (s'.sched) (new ∷ xs)
unfolding procrforkgut link_proc
procrforkgut-IsRing k new s xs r n = record {
  linked = Linked-front s.sched.next s.sched.cur new xs r.linked r.distinct.0 n;
  distinct = (((λ e. n.0 (sym e)), r.distinct.0), (n.1, r.distinct.1));
}

-- The processes behind one, in the order of the links.
abbrev pub Chain : (ℕ → Option ℕ) → ℕ → List ℕ → Type 0
Chain nextpid p [] = nextpid p ≡ none
Chain nextpid p (x ∷ xs) = (nextpid p ≡ some x) × Chain nextpid x xs

-- The numbers of processes lie below one that is to be given.
abbrev pub Below : (ℕ → ℕ) → ℕ → List ℕ → Type 0
Below pid n [] = Unit {0}
Below pid n (x ∷ xs) = (pid x < n) × Below pid n xs

Chain-away :
    (f : ℕ → Option ℕ) (p q : ℕ) (v : Option ℕ) (xs : List ℕ)
    → NotIn q (p ∷ xs)
    → Chain f p xs
    → Chain (update f q v) p xs
Chain-away f p q v [] n c = ground arith
Chain-away f p q v (x ∷ xs) n c = (ground arith, Chain-away f x q v xs n.1 c.1)

-- The new process goes behind the last one.
Chain-snoc :
    (f : ℕ → Option ℕ) (p new : ℕ) (xs : List ℕ)
    → Distinct (p ∷ xs)
    → NotIn new (p ∷ xs)
    → f new ≡ none
    → Chain f p xs
    → Chain (update f (last p xs) (some new)) p (xs ++ (new ∷ []))
Chain-snoc f p new [] d n z c = (ground arith, ground arith)
Chain-snoc f p new (x ∷ xs) d n z c =
    (ground (arith, NotIn-last p x xs d.0), Chain-snoc f x new xs d.1 n.1 z c.1)

Chain-last : (f : ℕ → Option ℕ) (p : ℕ) (xs : List ℕ) → Chain f p xs → f (last p xs) ≡ none
Chain-last f p [] c = c
Chain-last f p (x ∷ xs) c = Chain-last f x xs c.1

pid_place-last :
    (k n : ℕ) (s : Procs) (p : ℕ) (xs : List ℕ)
    → Chain s.nextpid p xs
    → Below s.pid n xs
    → length xs < k
    → pid_place k n s p ≡ last p xs
unfolding pid_place
pid_place-last zero n s p xs c b l = absurd (omega arith)
pid_place-last (suc k) n s p [] c b l = rw (c, pid_place) refl
pid_place-last (suc k) n s p (x ∷ xs) c b l =
    let less : ltb (s.pid x) n ≡ true = ground arith in
    rw (c.0, pid_place) (rw less (pid_place-last k n s x xs c.1 b.1 (omega arith)))

findpid_from-snoc :
    (k n : ℕ) (s : Procs) (p new : ℕ) (xs : List ℕ)
    → Chain s.nextpid p (xs ++ (new ∷ []))
    → Below s.pid n (p ∷ xs)
    → s.pid new ≡ n
    → suc (length xs) < k
    → findpid_from k n s (some p) ≡ some new
unfolding findpid_from
findpid_from-snoc zero n s p new xs c b e l = absurd (omega arith)
findpid_from-snoc (suc zero) n s p new xs c b e l = absurd (omega arith)
findpid_from-snoc (suc (suc k)) n s p new [] c b e l =
    let away : (s.pid p == n) ≡ false = ground arith in
    let here : (s.pid new == n) ≡ true = ground arith in rw away (rw c.0 (rw here refl))
findpid_from-snoc (suc (suc k)) n s p new (x ∷ xs) c b e l =
    let away : (s.pid p == n) ≡ false = ground arith in
    rw away (rw c.0 (findpid_from-snoc (suc k) n s x new xs c.1 b.1 e (omega arith)))

Below-update :
    (f : ℕ → ℕ) (n new v : ℕ) (xs : List ℕ)
    → NotIn new xs
    → Below f n xs
    → Below (update f new v) n xs
Below-update f n new v [] m b = tt
Below-update f n new v (x ∷ xs) m b = (ground arith, Below-update f n new v xs m.1 b.1)

-- The number that a new process is given leads to it afterwards, where the links lead through the other
-- processes, each once, to an end, their numbers lie below the next one, and the new process has no link.
pub procrforkgut-findpid :
    (k new : ℕ) (s : Procs) (xs : List ℕ)
    → Chain s.nextpid nullproc xs
    → Distinct (nullproc ∷ xs)
    → NotIn new (nullproc ∷ xs)
    → s.nextpid new ≡ none
    → Below s.pid s.last_pid (nullproc ∷ xs)
    → length xs < k
    → let (pid, s') = procrforkgut k new s in findpid (suc k) pid s' ≡ some new
unfolding procrforkgut link_proc findpid
procrforkgut-findpid k new s xs c d m z b l =
    let s1 : Procs = record s {
      pid = update s.pid new s.last_pid;
      last_pid = s.last_pid + 1;
      handler = update s.handler new (s.handler s.sched.cur);
      handling = update s.handling new (s.handling s.sched.cur);
      sched = record s.sched { procs = update s.sched.procs new (fresh_proc s.sched new) };
    } in
    let n = s.last_pid in
    let below = Below-update s.pid n new n (nullproc ∷ xs) m b in
    let own : s1.pid new ≡ n = ground arith in
    let at : pid_place k (s1.pid new) s1 nullproc ≡ last nullproc xs =
      rw own (pid_place-last k n s1 nullproc xs c below.1 l) in
    let f = update s.nextpid new none in
    let away = Chain-away s.nextpid nullproc new none xs m c in
    let behind = Chain-snoc f nullproc new xs d m (ground arith) away in
    let end : s.nextpid (last nullproc xs) ≡ none = Chain-last s.nextpid nullproc xs c in
    let chain : Chain ((link_proc k new s1).nextpid) nullproc (xs ++ (new ∷ [])) =
      rw at (rw end behind) in
    findpid_from-snoc (suc k) n (link_proc k new s1) nullproc new xs chain below own (omega arith)
