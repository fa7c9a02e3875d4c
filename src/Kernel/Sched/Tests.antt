-- ===== src/Kernel/Sched/Tests.antt =====
-- The scheduler with three processes, of which 1 runs.
use yax.Base.{◌==◌, if◌then◌else◌, ℕ, ◌≡◌, refl, none, some, [], ◌∷◌, arith}
use yax.Base.Int.{pos}
use yax.Kernel.Sched.{Proc, Sem, Sched, update, switches, procswitchgut, semwait, semsignal}
use yax.Kernel.Sched.Ring.{Linked, IsRing, procswitchgut-IsRing}
use yax.Base.Int.{minus}
use yax.Kernel.Sched.Queue.{semwait-switches, semsignal-wakes}

abbrev free : Proc
free = record {
  quantum = pos 3;
  priority = pos 3;
  blocked = none;
  blockedn = 0;
  blocked2 = none;
  blockedn2 = 0;
  sp = 0;
}

-- 1, then 2, then the null process.
abbrev links : ℕ → ℕ
links p = if p == 1 then 2 else if p == 2 then 0 else 1

-- Semaphore 5 has two units, and process 7 waits for one unit of semaphore 6.
abbrev sems : ℕ → Sem
sems =
    update
      (update (λ i. record { sem = pos 1; waiter = none }) 5
        (record { sem = pos 2; waiter = none }))
      6 (record { sem = pos 0; waiter = some 7 })

abbrev three : Sched
three = record {
  cur = 1;
  next = links;
  bnext = (λ p. none);
  procs = update (λ p. free) 7 (record free { blocked = some 6; blockedn = 1 });
  sems = sems;
}

-- The same ring, with 2 running.
abbrev second : Sched
second = record three { cur = 2 }

three-IsRing : IsRing three (2 ∷ 0 ∷ [])
three-IsRing = record {
  linked = (refl, (refl, refl));
  distinct = ((omega arith, (omega arith, tt)), ((omega arith, tt), (tt, tt)));
}

second-IsRing : IsRing second (0 ∷ 1 ∷ [])
second-IsRing = record {
  linked = (refl, (refl, refl));
  distinct = ((omega arith, (omega arith, tt)), ((omega arith, tt), (tt, tt)));
}

procswitchgut-IsRing_example :
    let s' = procswitchgut 64 three in (s'.cur ≡ 2) × IsRing s' (0 ∷ 1 ∷ [])
procswitchgut-IsRing_example = procswitchgut-IsRing 64 three 2 (0 ∷ []) three-IsRing (omega arith)

semwait-switches_example :
    (s' : Sched) × (semwait 3 5 4 three ≡ switches s')
    × Linked s'.next (2 ∷ 0 ∷ []) 2
    × (s'.next 1 ≡ 2)
    × ((s'.sems 5).waiter ≡ some 1)
    × (s'.bnext 1 ≡ none)
    × ((s'.procs 1).blocked ≡ some 5)
    × ((s'.procs 1).blockedn ≡ 4)
unfolding minus
semwait-switches_example =
    semwait-switches 3 5 4 three 2 (0 ∷ []) refl refl refl three-IsRing (omega arith)

semsignal-wakes_example :
    (s' : Sched) × (semsignal 2 3 6 1 three ≡ some s')
    × IsRing s' (2 ∷ 0 ∷ 7 ∷ [])
    × ((s'.procs 7).blocked ≡ none)
    × ((s'.sems 6).waiter ≡ none)
semsignal-wakes_example =
    semsignal-wakes 0 3 6 7 three (2 ∷ 0 ∷ []) refl refl refl (omega arith) three-IsRing
      (omega arith, (omega arith, (omega arith, tt))) (omega arith)
