-- ===== src/Codas/Vector.antt =====
-- libcodas/vector.c and codas/vector.h, for vectors of pointers. A vector is the address of its
-- buffer, its `len` items and its capacity in items; the slots between are not initialised. What
-- `malloc` and `realloc` return is an argument. A cursor is a position, and `none` the null pointer.
use yax.Base.{
  ℕ, ◌+◌, ◌*◌, ◌-◌, ◌≤◌, ◌<◌, ◌≡◌, Bool, Option, none, some, List, [], ◌∷◌, ◌++◌, arith, length,
  get_elem?, set, take, ltb, leb, ◌==◌, if◌then◌else◌, length-append,
}

pub record Vec {ℓ} (A : Type ℓ) : Type ℓ where
  pub ptr : ℕ
  pub items : List A
  pub cap : ℕ

module _ {ℓ} {A : Type ℓ} where
  abbrev pub vec_len : Vec A → ℕ
  vec_len v = length v.items

  abbrev pub vec_new : Vec A
  vec_new = record { ptr = 0; items = []; cap = 0 }

  unfoldable pub vec_with_cap : ℕ → ℕ → Vec A
  vec_with_cap fresh cap = record { ptr = fresh; items = []; cap = cap }

  unfoldable pub grow : ℕ → Vec A → Vec A
  grow fresh v = record v { ptr = fresh; cap = v.cap + 16 }

  unfoldable pub vec_push : ℕ → Vec A → A → Vec A
  unfolding grow
  vec_push fresh v x =
      let v' = (if v.cap == vec_len v then grow fresh v else v) in
      record v' { items = v'.items ++ (x ∷ []) }

  -- `vecget` is the address of a slot.
  abbrev pub vec_get : Vec A → ℕ → ℕ
  vec_get v n = v.ptr + n * 4

  -- What the slot holds, `none` outside the vector (an undefined read).
  unfoldable pub vec_load : Vec A → ℕ → Option A
  vec_load v n = get_elem? v.items n

  unfoldable pub vec_set : Vec A → ℕ → A → Vec A
  vec_set v n x = record v { items = set v.items n x }

  -- The last item moves into slot `n`.
  unfoldable pub vec_rem_swap : Vec A → ℕ → Vec A
  vec_rem_swap v n = elim (get_elem? v.items (vec_len v - 1)) [
    | none ↦ v
    | some x ↦ record v { items = take (vec_len v - 1) (set v.items n x) }
  ]

  unfoldable pub vec_iter : Vec A → Option ℕ
  vec_iter v = if vec_len v == 0 then none else some 0

  -- The next position: the test is made on the current one.
  unfoldable pub vec_iter_next : Vec A → ℕ → Option ℕ
  vec_iter_next v cur = if leb (vec_len v) cur then none else some (cur + 1)

  -- The items that `drop` is called on, and whether the buffer is freed.
  unfoldable pub vec_drop : Bool → Vec A → List A × Bool
  vec_drop has_drop v = ((if has_drop then v.items else []), ltb 0 v.cap)

  -- The items fit the buffer, and a vector with items has one.
  pub record IsValid (v : Vec A) : Type 0 where
    pub fits : vec_len v ≤ v.cap
    pub buffer : 0 < v.cap → 0 < v.ptr

  -- A push appends the item at the end and keeps the vector valid: it never writes past the capacity.
  pub vec_push_lem :
      (fresh : ℕ) (v : Vec A) (x : A)
      → IsValid v
      → 0 < fresh
      → ((vec_push fresh v x).items ≡ v.items ++ (x ∷ [])) × IsValid (vec_push fresh v x)
  unfolding vec_push
  vec_push_lem fresh v x h p = ground (arith, length-append v.items (x ∷ []))
