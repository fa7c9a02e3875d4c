-- ===== src/Kernel/Pmap.antt =====
-- src/mem/user.c: the map from physical pages to the structures that describe them, a tree of sixteen
-- ways, one level for each hexadecimal digit of the page's address.
pub mod Lookup
mod Tests
use yax.Base.{
  ℕ, zero, suc, ◌+◌, ◌-◌, ◌*◌, ◌/◌, ◌%◌, ◌^◌, Bool, true, false, not, Option, none, some, List, [],
  ◌∷◌, ◌++◌, ◌&&◌, ◌==◌, if◌then◌else◌,
}

-- A null pointer, a node with sixteen children, or the union's other side at the last level, with a
-- page (0 is the null page).
pub data Pmap : Type 0 where
  null : Pmap
  node : (ℕ → Pmap) → Pmap
  leaf : ℕ → Pmap

-- The digits that index the levels, `(p >> i) & 0xf` for i = 28, 24, … 12.
abbrev pub digits : ℕ → List ℕ
digits p =
    ((p / 2 ^ 28) % 16)
    ∷ ((p / 2 ^ 24) % 16)
    ∷ ((p / 2 ^ 20) % 16)
    ∷ ((p / 2 ^ 16) % 16)
    ∷ ((p / 2 ^ 12) % 16)
    ∷ []

-- A change of a page's reference count.
pub data RefOp : Type 0 where
  take_ref : ℕ → RefOp
  drop_ref : ℕ → RefOp

abbrev pub page_of : Pmap → ℕ
page_of null = 0
page_of (node ps) = 0
page_of (leaf p) = p

-- `pm->ps[d]`; at a leaf the slots are not initialised, and the loops do not come there.
abbrev pub child : Pmap → ℕ → Pmap
child null d = null
child (node ps) d = ps d
child (leaf p) d = null

unfoldable pub pmap_get_at : Pmap → List ℕ → ℕ
pmap_get_at t [] = page_of t
pmap_get_at t (d ∷ ds) = elim t [ null ↦ 0 | node ps ↦ pmap_get_at (ps d) ds | leaf p ↦ 0 ]

unfoldable pub pmapget : Pmap → ℕ → ℕ
pmapget t p = pmap_get_at t (digits p)

abbrev pub put_child : (ℕ → Pmap) → ℕ → Pmap → ℕ → Pmap
put_child ps d t i = if i == d then t else ps i

-- The tree under a pointer after the loop has gone down the digits: missing nodes are made on the way,
-- and the page goes into the leaf.
unfoldable pub pmap_set_at : Pmap → List ℕ → ℕ → Pmap
pmap_set_at t [] np = leaf np
pmap_set_at t (d ∷ ds) np = node (put_child (child t) d (pmap_set_at (child t d) ds np))

-- The reference counts that the last level changes: the old page loses one only if another takes its
-- place.
unfoldable pub set_refs : ℕ → ℕ → List RefOp
set_refs old np =
    (if not (np == 0) && not (old == 0) then drop_ref old ∷ [] else [])
    ++ (if np == 0 then [] else take_ref np ∷ [])

unfoldable pub pmapset : Pmap → ℕ → ℕ → Pmap × List RefOp
pmapset t p np = (pmap_set_at t (digits p) np, set_refs (pmapget t p) np)

unfoldable pub pmapdel : Pmap → ℕ → Pmap × List RefOp
pmapdel t p = pmapset t p 0
