-- ===== src/Yaxfs/Fid.antt =====
-- libyaxfs/fid.c: open files and the pool that numbers them. A slot of the pool holds a fid by value,
-- since no two slots share one, and `none` where the pointer is null.
use yax.Base.{
  ℕ, zero, suc, ◌+◌, ◌-◌, ◌<◌, ◌≡◌, refl, Option, none, some, [], ◌∷◌, ◌++◌, arith,
  get_elem?-set_self, length-append, ◌==◌, if◌then◌else◌,
}
use yax.Base.Int.{ℤ, pos}
use yax.Codas.Vector.{Vec, vec_len, vec_get, vec_load, vec_set, vec_push, IsValid, vec_push_lem}

pub record Fid : Type 0 where
  pub off : ℤ
  pub omode : ℕ
  pub dirread : Option ℕ
  pub file : ℕ
  pub aux : ℕ

abbrev pub Fidpool : Type 0
Fidpool = Vec (Option Fid)

unfoldable pub fid_new : ℕ → ℕ → Fid
fid_new f aux = record { off = pos 0; omode = 0; dirread = none; file = f; aux = aux }

-- The loop over the slots from `fid` on, `k` of them left; the test is on the address of the slot.
fid_add_from : ℕ → ℕ → ℕ → Fidpool → Fid → ℕ × Fidpool
fid_add_from fresh zero fid pool f =
    let pool' = vec_push fresh pool (some f) in (vec_len pool' - 1, pool')
fid_add_from fresh (suc k) fid pool f =
    let rest = fid_add_from fresh k (fid + 1) pool f in
    if vec_get pool fid == 0 then (fid, vec_set pool fid (some f)) else rest

unfoldable pub fid_add : ℕ → Fidpool → Fid → ℕ × Fidpool
unfolding fid_add_from
fid_add fresh pool f = fid_add_from fresh (vec_len pool) 0 pool f

-- The slot is read after it has been cleared.
unfoldable pub fid_rem : Fidpool → ℕ → Option (Option Fid) × Fidpool
unfolding vec_set vec_load
fid_rem pool fid = let pool' = vec_set pool fid none in (vec_load pool' fid, pool')

-- `none` is a read outside the pool, `some none` a null slot.
unfoldable pub fid_lookup : Fidpool → ℕ → Option (Option Fid)
unfolding vec_load
fid_lookup pool fid = vec_load pool fid

fid_add_from-push :
    (fresh k fid : ℕ) (pool : Fidpool) (f : Fid)
    → 0 < pool.ptr
    → fid_add_from fresh k fid pool f
      ≡ (vec_len (vec_push fresh pool (some f)) - 1, vec_push fresh pool (some f))
unfolding fid_add_from
fid_add_from-push fresh zero fid pool f h = refl
fid_add_from-push fresh (suc k) fid pool f h =
    ground (arith, fid_add_from-push fresh k (fid + 1) pool f h)

-- `fidadd` never reuses a slot, free or not: in a pool with a buffer it appends the fid and returns
-- the number of slots there were.
pub fid_add-append :
    (fresh : ℕ) (pool : Fidpool) (f : Fid)
    → IsValid pool
    → 0 < pool.ptr
    → 0 < fresh
    → let (n, pool') = fid_add fresh pool f in
      (n ≡ vec_len pool) × (pool'.items ≡ pool.items ++ (some f ∷ [])) × IsValid pool'
unfolding fid_add
fid_add-append fresh pool f v h p = ground (
  arith,
  fid_add_from-push fresh (vec_len pool) 0 pool f h,
  vec_push_lem fresh pool (some f) v p,
  length-append pool.items (some f ∷ []),
)

-- `fidrem` of a slot of the pool returns a null pointer, whatever the slot held, and clears the slot.
pub fid_rem-null :
    (pool : Fidpool) (n : ℕ)
    → n < vec_len pool
    → let (r, pool') = fid_rem pool n in (r ≡ some none) × (fid_lookup pool' n ≡ some none)
unfolding fid_rem fid_lookup
fid_rem-null pool n h =
    (get_elem?-set_self pool.items n none h, get_elem?-set_self pool.items n none h)
