-- ===== src/Kernel/Sched/Ring.antt =====
-- The run queue as a circular list.
use yax.Base.{
  true, eq→==, ◌∙◌, ap, NotIn, Distinct, NotIn-snoc, Distinct-snoc, subst, ap₂, sym, ℕ, zero, suc,
  ◌<◌, ◌≡◌, ◌≢◌, List, [], ◌∷◌, ◌++◌, length, arith,
}
use yax.Kernel.Sched.{
  nullproc, procswitchgut, Sched, update, findprev_from, findprev, search_ends, leave_queue,
  join_queue,
}

-- The links lead from each process of the list to the one behind it, and from the last one to `stop`.
abbrev pub Linked : (ℕ → ℕ) → List ℕ → ℕ → Type 0
Linked next [] stop = Unit {0}
Linked next (x ∷ []) stop = next x ≡ stop
Linked next (x ∷ y ∷ ys) stop = (next x ≡ y) × Linked next (y ∷ ys) stop

-- The run queue from the process that runs on, in the order in which the others have their turns.
pub record IsRing (s : Sched) (xs : List ℕ) : Type 0 where
  pub linked : Linked s.next (s.cur ∷ xs) s.cur
  pub distinct : Distinct (s.cur ∷ xs)

abbrev pub last : ℕ → List ℕ → ℕ
last x [] = x
last x (y ∷ ys) = last y ys

-- `findprev` comes to the last process of the ring.
findprev_from-last :
    (k : ℕ) (next : ℕ → ℕ) (q p : ℕ) (xs : List ℕ)
    → Linked next (q ∷ xs) p
    → NotIn p xs
    → length xs < k
    → findprev_from k next q p ≡ last q xs
unfolding findprev_from
findprev_from-last zero next q p xs l n h = absurd (omega arith)
findprev_from-last (suc k) next q p [] l n h = ground arith
findprev_from-last (suc k) next q p (y ∷ ys) l n h =
    ground (arith, findprev_from-last k next y p ys l.1 n.1)

Linked-last : (next : ℕ → ℕ) (q p : ℕ) (xs : List ℕ) → Linked next (q ∷ xs) p → next (last q xs) ≡ p
Linked-last next q p [] l = l
Linked-last next q p (x ∷ xs) l = Linked-last next x p xs l.1

-- The search for the process before the running one ends at one that leads to it.
pub findprev-next :
    (k : ℕ) (s : Sched) (xs : List ℕ)
    → Linked s.next (s.cur ∷ xs) s.cur
    → NotIn s.cur xs
    → length xs < k
    → s.next (findprev k s s.cur) ≡ s.cur
unfolding findprev
findprev-next k s xs l n h =
    ap s.next (findprev_from-last k s.next s.cur s.cur xs l n h)
    ∙ Linked-last s.next s.cur s.cur xs l

pub findprev-search_ends :
    (k : ℕ) (s : Sched) (xs : List ℕ)
    → Linked s.next (s.cur ∷ xs) s.cur
    → NotIn s.cur xs
    → length xs < k
    → search_ends k s ≡ true
unfolding search_ends
findprev-search_ends k s xs l n h =
    eq→== (s.next (findprev k s s.cur)) s.cur (findprev-next k s xs l n h)

pub NotIn-last : (x y : ℕ) (ys : List ℕ) → NotIn x (y ∷ ys) → x ≢ last y ys
NotIn-last x y [] n = n.0
NotIn-last x y (z ∷ zs) n = NotIn-last x z zs n.1

-- A link of a process outside the list does not matter to it.
Linked-outside :
    (next : ℕ → ℕ) (xs : List ℕ) (stop i v : ℕ)
    → NotIn i xs
    → Linked next xs stop
    → Linked (update next i v) xs stop
Linked-outside next [] stop i v n l = tt
Linked-outside next (x ∷ []) stop i v n l = ground arith
Linked-outside next (x ∷ y ∷ ys) stop i v n l =
    (ground arith, Linked-outside next (y ∷ ys) stop i v n.1 l.1)

-- The last link may be given anew.
Linked-relink :
    (next : ℕ → ℕ) (x : ℕ) (xs : List ℕ) (stop v : ℕ)
    → Distinct (x ∷ xs)
    → Linked next (x ∷ xs) stop
    → Linked (update next (last x xs) v) (x ∷ xs) v
Linked-relink next x [] stop v d l = ground arith
Linked-relink next x (y ∷ ys) stop v d l =
    (ground (arith, NotIn-last x y ys d.0), Linked-relink next y ys stop v d.1 l.1)

-- A list that leads to `w`, and `w` that leads on, are one list.
pub Linked-snoc :
    (next : ℕ → ℕ) (x : ℕ) (xs : List ℕ) (w stop : ℕ)
    → Linked next (x ∷ xs) w
    → next w ≡ stop
    → Linked next (x ∷ (xs ++ (w ∷ []))) stop
Linked-snoc next x [] w stop l e = (l, e)
Linked-snoc next x (y ∷ ys) w stop l e = (l.0, Linked-snoc next y ys w stop l.1 e)

-- In a ring with another process, and with more fuel than it has others, the process that leaves
-- takes itself out: the others are a ring in the order that they had, and the one that left still
-- leads to the next one to run, `y`.
pub leave_queue-Linked :
    (k : ℕ) (s : Sched) (y : ℕ) (ys : List ℕ)
    → IsRing s (y ∷ ys)
    → suc (length ys) < k
    → Linked (leave_queue k s).next (y ∷ ys) y × ((leave_queue k s).next s.cur ≡ y)
unfolding leave_queue findprev
leave_queue-Linked k s y ys r h =
    let prev : findprev_from k s.next s.cur s.cur ≡ last y ys =
      findprev_from-last k s.next s.cur s.cur (y ∷ ys) r.linked r.distinct.0 h in
    let links : (leave_queue k s).next ≡ update s.next (last y ys) y =
      ap₂ (λ p v. update s.next p v) prev r.linked.0 in
    subst (λ f. Linked f (y ∷ ys) y × (f s.cur ≡ y)) (sym links)
      (
        Linked-relink s.next y ys s.cur y r.distinct.1 r.linked.1,
        ground (arith, NotIn-last s.cur y ys r.distinct.0),
      )

-- With more fuel than the ring has others, a process that is woken, and is not in the ring, joins it
-- as the last to run before the running one has its turn again, behind all that are there.
pub join_queue-IsRing :
    (k : ℕ) (s : Sched) (xs : List ℕ) (w : ℕ)
    → IsRing s xs
    → NotIn w (s.cur ∷ xs)
    → length xs < k
    → IsRing (join_queue k s w) (xs ++ (w ∷ []))
unfolding join_queue findprev
join_queue-IsRing k s xs w r n h =
    let prev : findprev_from k s.next s.cur s.cur ≡ last s.cur xs =
      findprev_from-last k s.next s.cur s.cur xs r.linked r.distinct.0 h in
    let next1 = update s.next w s.cur in
    let outside = Linked-outside s.next (s.cur ∷ xs) s.cur w s.cur n r.linked in
    let ring = Linked-relink next1 s.cur xs s.cur w r.distinct outside in
    rw prev (record {
      linked =
          Linked-snoc (update next1 (last s.cur xs) w) s.cur xs w s.cur ring
            (ground (arith, NotIn-last w s.cur xs n));
      distinct = Distinct-snoc w (s.cur ∷ xs) r.distinct n;
    })

-- A switch gives the turn to the next process of the ring, where that is not the null process, and
-- puts the one that ran last.
pub procswitchgut-IsRing :
    (sp : ℕ) (s : Sched) (y : ℕ) (ys : List ℕ)
    → IsRing s (y ∷ ys)
    → y ≢ nullproc
    → let s' = procswitchgut sp s in (s'.cur ≡ y) × IsRing s' (ys ++ (s.cur ∷ []))
unfolding procswitchgut
procswitchgut-IsRing sp s y ys r h =
    let c : (procswitchgut sp s).cur ≡ y = ground arith in
    (
      c,
      record {
        linked =
            subst (λ t. Linked s.next (t ∷ (ys ++ (s.cur ∷ []))) t) (sym c)
              (Linked-snoc s.next y ys s.cur y r.linked.1 r.linked.0);
        distinct =
            subst (λ t. Distinct (t ∷ (ys ++ (s.cur ∷ [])))) (sym c)
              (Distinct-snoc s.cur (y ∷ ys) r.distinct.1 r.distinct.0);
      },
    )

-- Where the null process is the next one, a switch passes over it: the one behind it runs, and the null
-- process and the one that ran come last.
pub procswitchgut-null :
    (sp : ℕ) (s : Sched) (z : ℕ) (zs : List ℕ)
    → IsRing s (nullproc ∷ z ∷ zs)
    → let s' = procswitchgut sp s in
      (s'.cur ≡ z) × IsRing s' ((zs ++ (s.cur ∷ [])) ++ (nullproc ∷ []))
unfolding procswitchgut
procswitchgut-null sp s z zs r =
    let c : (procswitchgut sp s).cur ≡ z = ground arith in
    let (n, d) = r.distinct in
    let behind = NotIn-snoc nullproc s.cur (z ∷ zs) d.0 (λ e. n.0 (sym e)) in
    (
      c,
      record {
        linked =
            subst (λ t. Linked s.next (t ∷ ((zs ++ (s.cur ∷ [])) ++ (nullproc ∷ []))) t) (sym c)
              (Linked-snoc s.next z (zs ++ (s.cur ∷ [])) nullproc z
                (Linked-snoc s.next z zs s.cur nullproc r.linked.1.1 r.linked.0) r.linked.1.0);
        distinct =
            subst (λ t. Distinct (t ∷ ((zs ++ (s.cur ∷ [])) ++ (nullproc ∷ [])))) (sym c)
              (Distinct-snoc nullproc (z ∷ (zs ++ (s.cur ∷ [])))
                (Distinct-snoc s.cur (z ∷ zs) d.1 n.1) behind);
      },
    )
