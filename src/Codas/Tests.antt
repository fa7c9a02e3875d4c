-- ===== src/Codas/Tests.antt =====
-- Words and vectors at concrete values.
use yax.Base.{◌+◌, ◌≡◌, ◌∷◌, ◌++◌, [], ◌%◌, ◌^◌}
use yax.Codas.Bit.{gbit64, pbit64, gbit64-pbit64}

-- A word of 65 bits loses its highest one.
pbit64-wraps : gbit64 (pbit64 (2 ^ 64 + 5) ++ (9 ∷ [])) ≡ (2 ^ 64 + 5) % 2 ^ 64
pbit64-wraps = gbit64-pbit64 (2 ^ 64 + 5) (9 ∷ [])
