-- ===== src/Codas/Ref.antt =====
-- libcodas/ref.c: reference counts. The count is an `int`; it stays far below its limit.
use yax.Base.{ℕ, zero, suc, ◌+◌, ◌≡◌, arith}

-- What `unref` does: the object lives on with a count, is freed, or the count was already spent, and
-- the code stores through a null pointer.
pub data Unref : Type 0 where
  alive : ℕ → Unref
  freed : Unref
  fault : Unref

unfoldable pub mkref : ℕ
mkref = 1

unfoldable pub ref : ℕ → ℕ
ref n = n + 1

unfoldable pub unref : ℕ → Unref
unref zero = fault
unref (suc zero) = freed
unref (suc (suc n)) = alive (suc n)

-- A reference that is taken and given back leaves the count of a living object as it was.
pub unref-ref : (n : ℕ) → unref (ref (suc n)) ≡ alive (suc n)
unfolding unref ref
unref-ref n = ground arith
