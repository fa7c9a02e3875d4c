-- ===== src/Kernel/Printkfs/Tests.antt =====
-- The print file at small inputs.
use yax.Base.{◌≡◌, refl, [], ◌∷◌}
use yax.Codes.{m_swrite}
use yax.Kernel.Printkfs.{printkfs_fn}

writes_a : (printkfs_fn m_swrite 0 (97 ∷ []) 1).printed ≡ 97 ∷ []
unfolding printkfs_fn
writes_a = refl
