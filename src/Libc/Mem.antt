-- ===== src/Libc/Mem.antt =====
-- libc/string/memmove.c over one object: an array of bytes, and positions in it for the two pointers.
use yax.Base.{
  ℕ, zero, suc, ◌+◌, ◌-◌, ◌<◌, ◌≤◌, ◌≡◌, ◌&&◌, arith, length, get_or, set, ltb, leb, if◌then◌else◌,
  get_or-set, get_or-set_self, get_or-set_ne, length-set, ℕ_discrete,
}
use yax.Codas.Bit.{Bytes}

-- `for(; n; n--, a++, b++) *a = *b;`
copy_up : Bytes → ℕ → ℕ → ℕ → Bytes
copy_up m a b zero = m
copy_up m a b (suc n) = copy_up (set m a (get_or m b 0)) (a + 1) (b + 1) n

-- `for(a += n-1, b += n-1; n; n--, a--, b--) *a = *b;`, where `a` and `b` are the starts.
copy_down : Bytes → ℕ → ℕ → ℕ → Bytes
copy_down m a b zero = m
copy_down m a b (suc n) = copy_down (set m (a + n) (get_or m (b + n) 0)) a b n

unfoldable pub memmove : Bytes → ℕ → ℕ → ℕ → Bytes
unfolding copy_up copy_down
memmove m a b n = if ltb a b then copy_up m a b n else copy_down m a b n

-- The byte at `i` after the bytes from `b` on have gone to `a`, read before any was moved.
abbrev pub moved : Bytes → ℕ → ℕ → ℕ → ℕ → ℕ
moved m a b n i = if leb a i && ltb i (a + n) then get_or m (b + (i - a)) 0 else get_or m i 0

copy_up-moved :
    (m : Bytes) (a b n i : ℕ)
    → a < b
    → a + n ≤ length m
    → get_or (copy_up m a b n) i 0 ≡ moved m a b n i
unfolding copy_up
copy_up-moved m a b zero i h p = ground arith
copy_up-moved m a b (suc n) i h p = ground (
  arith,
  length-set m a (get_or m b 0),
  copy_up-moved (set m a (get_or m b 0)) (a + 1) (b + 1) n i,
  get_or-set m a i (get_or m b 0) 0,
  get_or-set m a (b + 1 + (i - (a + 1))) (get_or m b 0) 0,
)

copy_down-moved :
    (m : Bytes) (a b n i : ℕ)
    → b ≤ a
    → a + n ≤ length m
    → get_or (copy_down m a b n) i 0 ≡ moved m a b n i
unfolding copy_down
copy_down-moved m a b zero i h p = ground arith
copy_down-moved m a b (suc n) i h p =
    let v = get_or m (b + n) 0 in
    let rest =
      copy_down-moved (set m (a + n) v) a b n i h (omega (arith, length-set m (a + n) v)) in
    elim (ℕ_discrete i (a + n)) [
      | yes e ↦ ground (arith, rest, get_or-set_self m (a + n) v 0, e)
      | no e ↦
          ground
            (arith, rest, get_or-set_ne m (a + n) i v 0, get_or-set_ne m (a + n) (b + (i - a)) v 0)
    ]

-- `memmove` within an object puts the n bytes from b at a as they were before the call, also where
-- the two ranges overlap, and leaves every other byte as it was.
pub memmove_lem :
    (m : Bytes) (a b n i : ℕ)
    → a + n ≤ length m
    → b + n ≤ length m
    → get_or (memmove m a b n) i 0 ≡ moved m a b n i
unfolding memmove
memmove_lem m a b n i p q = ground (arith, copy_up-moved m a b n i, copy_down-moved m a b n i)
