-- ===== src/Kernel/Name/Tests.antt =====
-- Paths with the characters `a` and `b`.
use yax.Base.{◌≡◌, refl, some, List, [], ◌∷◌, arith}
use yax.Codas.Bit.{Bytes}
use yax.Kernel.Name.{
  nameclean, clean, clean_from, skip_component, copy_component, step_back, back_to_slash, rev_onto,
  slash,
}
use yax.Kernel.Name.Resolve.{AllNoSlash, text, render, resolve, nameclean-resolve}

-- `a/./../b/`
abbrev parts : List Bytes
parts = (97 ∷ []) ∷ (46 ∷ []) ∷ (46 ∷ 46 ∷ []) ∷ (98 ∷ []) ∷ []

parts-AllNoSlash : AllNoSlash parts
parts-AllNoSlash = ground arith

nameclean-resolve_example :
    nameclean [] (slash ∷ text parts) ≡ some (rev_onto (render (resolve [] parts)) [])
nameclean-resolve_example = nameclean-resolve [] parts parts-AllNoSlash

-- `b` from the directory `/`: the slash stands twice.
nameclean-root : nameclean (47 ∷ []) (98 ∷ []) ≡ some (47 ∷ 47 ∷ 98 ∷ [])
unfolding nameclean clean clean_from skip_component copy_component step_back back_to_slash rev_onto
nameclean-root = refl
