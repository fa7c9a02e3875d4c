-- ===== src/Initrd/Tarfs/Tests.antt =====
-- Small headers, and an archive of a header and three bytes.
use yax.Base.{◌≡◌, refl, true, none, some, [], ◌∷◌, ◌++◌, replicate, arith}
use yax.Base.Int.{pos}
use yax.Codas.Bit.{Bytes}
use yax.Initrd.Tarfs.{oparse, subent, subent_from, is_plain}
use yax.Initrd.Tarfs.Numbers.{oparse-octal}

-- 644, and a terminator.
oparse-octal_example : oparse (54 ∷ 52 ∷ 52 ∷ 0 ∷ []) 3 ≡ some (pos 420)
oparse-octal_example = oparse-octal (6 ∷ 4 ∷ 4 ∷ []) (0 ∷ []) (omega arith) (omega arith)

-- The directory itself: both strings end at once.
itself : subent [] (97 ∷ 47 ∷ []) (47 ∷ 97 ∷ 47 ∷ []) ≡ none
unfolding subent subent_from
itself = refl

-- The entry d/b/c, with the prefix d/b, is taken for one that stands in /d/.
prefixed : subent (47 ∷ 100 ∷ 47 ∷ 98 ∷ []) (99 ∷ []) (47 ∷ 100 ∷ 47 ∷ []) ≡ some true
unfolding subent subent_from is_plain
prefixed = refl

abbrev archive : Bytes
archive = replicate 512 0 ++ (7 ∷ 8 ∷ 9 ∷ [])
