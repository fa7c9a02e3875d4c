-- ===== src/Kernel/Sched/Turns.antt =====
-- The state of the scheduler between two operations, and the end of each: the switch.
use yax.Base.{
  ◌∙◌, All-away, In-rotate, NotIn, Distinct, Distinct-snoc, subst, sym, ℕ, ◌≡◌, ◌≢◌, List, [], ◌∷◌,
  ◌++◌, arith, Option, none, some, In, All, All-map, All-snoc, refl, ℕ_discrete,
}
use yax.Base.Int.{ℤ}
use yax.Kernel.Sched.{nullproc, procswitchgut, Sched, Proc, update}
use yax.Kernel.Sched.Ring.{Linked, Linked-snoc, IsRing}

-- A process that waits for nothing, and one that waits for one semaphore.
abbrev pub IsFree : (ℕ → Proc) → ℕ → Type 0
IsFree procs p = ((procs p).blocked ≡ none) × ((procs p).blocked2 ≡ none)

abbrev pub Waits : (ℕ → Proc) → ℕ → ℕ → Type 0
Waits procs i p = ((procs p).blocked ≡ some i) × ((procs p).blocked2 ≡ none)

-- The list of a semaphore, from its first waiter on.
abbrev pub Queued : (ℕ → Option ℕ) → Option ℕ → List ℕ → Type 0
Queued bnext first [] = first ≡ none
Queued bnext first (x ∷ xs) = (first ≡ some x) × Queued bnext (bnext x) xs

pub record IsWaiting (s : Sched) (i : ℕ) (ws : List ℕ) : Type 0 where
  pub queued : Queued s.bnext (s.sems i).waiter ws
  pub distinct : Distinct ws
  pub waits : All (Waits s.procs i) ws

-- The run queue is a ring with the null process in it, those in it wait for nothing, and each
-- semaphore's list holds, once each, processes that wait for it.
pub record IsSound (s : Sched) (xs : List ℕ) (ws : ℕ → List ℕ) : Type 0 where
  pub ring : IsRing s xs
  pub null : In nullproc (s.cur ∷ xs)
  pub free : All (IsFree s.procs) (s.cur ∷ xs)
  pub waiting : (i : ℕ) → IsWaiting s i (ws i)

-- The same before a switch: the others, `y` first, are a ring, which the running process leads to,
-- whether it is in it or not.
pub record IsTurn (s : Sched) (y : ℕ) (ys : List ℕ) (ws : ℕ → List ℕ) : Type 0 where
  pub next : s.next s.cur ≡ y
  pub linked : Linked s.next (y ∷ ys) y
  pub distinct : Distinct (y ∷ ys)
  pub null : In nullproc (y ∷ ys)
  pub free : All (IsFree s.procs) (y ∷ ys)
  pub waiting : (i : ℕ) → IsWaiting s i (ws i)

pub IsSound-IsTurn :
    (s : Sched) (xs : List ℕ) (ws : ℕ → List ℕ)
    → IsSound s xs ws
    → (y : ℕ) × (ys : List ℕ) × IsTurn s y ys ws
IsSound-IsTurn s [] ws h = (
  s.cur,
  [],
  record {
    next = h.ring.linked;
    linked = h.ring.linked;
    distinct = h.ring.distinct;
    null = h.null;
    free = h.free;
    waiting = h.waiting;
  },
)
IsSound-IsTurn s (y ∷ ys) ws h = (
  y,
  ys ++ (s.cur ∷ []),
  record {
    next = h.ring.linked.0;
    linked = Linked-snoc s.next y ys s.cur y h.ring.linked.1 h.ring.linked.0;
    distinct = Distinct-snoc s.cur (y ∷ ys) h.ring.distinct.1 h.ring.distinct.0;
    null = In-rotate nullproc s.cur (y ∷ ys) h.null;
    free = All-snoc (IsFree s.procs) (y ∷ ys) s.cur h.free.1 h.free.0;
    waiting = h.waiting;
  },
)

-- A list is as before where the links and the processes differ at most for `w`, which is not in it.
Queued-outside :
    (f g : ℕ → Option ℕ) (first : Option ℕ) (w : ℕ) (xs : List ℕ)
    → NotIn w xs
    → ((p : ℕ) → w ≢ p → g p ≡ f p)
    → Queued f first xs
    → Queued g first xs
Queued-outside f g first w [] n e q = q
Queued-outside f g first w (x ∷ xs) n e q =
    (q.0, Queued-outside f g (g x) w xs n.1 e (subst (λ t. Queued f t xs) (sym (e x n.0)) q.1))

pub IsWaiting-outside :
    (s s' : Sched) (w i : ℕ) (ws : List ℕ)
    → NotIn w ws
    → (s'.sems i).waiter ≡ (s.sems i).waiter
    → ((p : ℕ) → w ≢ p → s'.bnext p ≡ s.bnext p)
    → ((p : ℕ) → w ≢ p → Waits s.procs i p → Waits s'.procs i p)
    → IsWaiting s i ws
    → IsWaiting s' i ws
IsWaiting-outside s s' w i ws n first links procs h = record {
  queued =
      subst (λ t. Queued s'.bnext t ws) (sym first)
        (Queued-outside s.bnext s'.bnext (s.sems i).waiter w ws n links h.queued);
  distinct = h.distinct;
  waits = All-away (Waits s.procs i) (Waits s'.procs i) w ws n procs h.waits;
}

-- The same with no process left out.
pub IsWaiting-same :
    (s s' : Sched) (i : ℕ) (ws : List ℕ)
    → (s'.sems i).waiter ≡ (s.sems i).waiter
    → s'.bnext ≡ s.bnext
    → ((p : ℕ) → Waits s.procs i p → Waits s'.procs i p)
    → IsWaiting s i ws
    → IsWaiting s' i ws
IsWaiting-same s s' i ws first links procs h = record {
  queued =
      subst (λ t. Queued s'.bnext t ws) (sym first)
        (subst (λ t. Queued t (s.sems i).waiter ws) (sym links) h.queued);
  distinct = h.distinct;
  waits = All-map (Waits s.procs i) (Waits s'.procs i) ws procs h.waits;
}

-- One list is a new one, the others are as they were.
pub IsWaiting-update :
    (s : Sched) (i : ℕ) (ws : ℕ → List ℕ) (v : List ℕ)
    → IsWaiting s i v
    → ((j : ℕ) → j ≢ i → IsWaiting s j (ws j))
    → (j : ℕ) → IsWaiting s j (update ws i v j)
IsWaiting-update s i ws v new old j = elim (ℕ_discrete j i) [
  | yes e ↦
      let v_at : v ≡ update ws i v j = ground arith in
      subst (λ t. IsWaiting s t (update ws i v j)) (sym e) (subst (IsWaiting s i) v_at new)
  | no n ↦ let w_at : ws j ≡ update ws i v j = ground arith in subst (IsWaiting s j) w_at (old j n)
]

-- The units of a semaphore do not matter.
pub units-IsSound :
    (s : Sched) (i : ℕ) (v : ℤ) (xs : List ℕ) (ws : ℕ → List ℕ)
    → IsSound s xs ws
    → IsSound (record s { sems = update s.sems i (record (s.sems i) { sem = v }) }) xs ws
units-IsSound s i v xs ws h = record {
  ring = record { linked = h.ring.linked; distinct = h.ring.distinct };
  null = h.null;
  free = h.free;
  waiting = λ j.
      IsWaiting-same s (record s { sems = update s.sems i (record (s.sems i) { sem = v }) }) j
        (ws j) (ground arith) refl (λ p w. w) (h.waiting j);
}

-- What a switch writes to the process that ran.
abbrev switched : ℕ → Sched → ℕ → Proc
switched sp s = (procswitchgut sp s).procs

switched-blocked :
    (sp : ℕ) (s : Sched) (p : ℕ)
    → ((switched sp s p).blocked ≡ (s.procs p).blocked)
      × ((switched sp s p).blocked2 ≡ (s.procs p).blocked2)
unfolding procswitchgut
switched-blocked sp s p = (ground arith, ground arith)

-- A switch keeps what the processes wait for.
switched-Waits : (sp i : ℕ) (s : Sched) (p : ℕ) → Waits s.procs i p → Waits (switched sp s) i p
switched-Waits sp i s p w = let (b, b2) = switched-blocked sp s p in (b ∙ w.0, b2 ∙ w.1)

switched-IsFree : (sp : ℕ) (s : Sched) (p : ℕ) → IsFree s.procs p → IsFree (switched sp s) p
switched-IsFree sp s p w = let (b, b2) = switched-blocked sp s p in (b ∙ w.0, b2 ∙ w.1)

-- A ring that a switch has come to.
switched-IsSound :
    (sp : ℕ) (s : Sched) (ws : ℕ → List ℕ) (cur : ℕ) (xs : List ℕ)
    → (procswitchgut sp s).cur ≡ cur
    → Linked s.next (cur ∷ xs) cur
    → Distinct (cur ∷ xs)
    → In nullproc (cur ∷ xs)
    → All (IsFree s.procs) (cur ∷ xs)
    → ((i : ℕ) → IsWaiting s i (ws i))
    → IsSound (procswitchgut sp s) xs ws
unfolding procswitchgut
switched-IsSound sp s ws cur xs e l d n f w = record {
  ring = record {
    linked = subst (λ t. Linked s.next (t ∷ xs) t) (sym e) l;
    distinct = subst (λ t. Distinct (t ∷ xs)) (sym e) d;
  };
  null = subst (λ t. In nullproc (t ∷ xs)) (sym e) n;
  free =
      subst (λ t. All (IsFree (switched sp s)) (t ∷ xs)) (sym e)
        (All-map (IsFree s.procs) (IsFree (switched sp s)) (cur ∷ xs) (switched-IsFree sp s) f);
  waiting =
      λ i. IsWaiting-same s (procswitchgut sp s) i (ws i) refl refl (switched-Waits sp i s) (w i);
}

-- The null process is passed over where another one is there.
procswitchgut-over :
    (sp : ℕ) (s : Sched) (y : ℕ) (ys : List ℕ) (ws : ℕ → List ℕ)
    → y ≡ nullproc
    → IsTurn s y ys ws
    → (xs : List ℕ) × IsSound (procswitchgut sp s) xs ws
procswitchgut-over sp s y [] ws e t = (
  [],
  switched-IsSound sp s ws y [] (unfold procswitchgut in ground (arith, t.next, t.linked)) t.linked
      t.distinct t.null t.free t.waiting,
)
procswitchgut-over sp s y (z ∷ zs) ws e t = (
  zs ++ (y ∷ []),
  switched-IsSound sp s ws z (zs ++ (y ∷ []))
      (unfold procswitchgut in ground (arith, t.next, t.linked.0))
      (Linked-snoc s.next z zs y z t.linked.1 t.linked.0)
      (Distinct-snoc y (z ∷ zs) t.distinct.1 t.distinct.0) (In-rotate nullproc y (z ∷ zs) t.null)
      (All-snoc (IsFree s.procs) (z ∷ zs) y t.free.1 t.free.0) t.waiting,
)

-- A switch ends in a sound state.
pub procswitchgut-IsSound :
    (sp : ℕ) (s : Sched) (y : ℕ) (ys : List ℕ) (ws : ℕ → List ℕ)
    → IsTurn s y ys ws
    → (xs : List ℕ) × IsSound (procswitchgut sp s) xs ws
procswitchgut-IsSound sp s y ys ws t = elim (ℕ_discrete y nullproc) [
  | no n ↦ (
    ys,
    switched-IsSound sp s ws y ys (unfold procswitchgut in ground (arith, t.next)) t.linked
        t.distinct t.null t.free t.waiting,
  )
  | yes e ↦ procswitchgut-over sp s y ys ws e t
]
