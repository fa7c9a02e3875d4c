-- ===== src/Libc/Dirent/Tests.antt =====
-- A directory as libyaxfs lists it, with one file of number 5 and the name ab.
use yax.Base.{ℕ, ◌≡◌, refl, Option, none, some, [], ◌∷◌, ◌++◌, take, drop, replicate}
use yax.Codas.Bit.{Bytes, gbit8, gbit16}
use yax.Libc.Dirent.{fdopendir, readdir}

abbrev rd : ℕ → Bytes → Option Bytes × Bytes
rd n d = (some (take n d), drop n d)

-- Its length with the two bytes of the length, the attributes, the length of the name and the name.
abbrev listing : Bytes
listing = 50 ∷ 0 ∷ 5 ∷ replicate 43 0 ++ (2 ∷ 0 ∷ 97 ∷ 98 ∷ [])

-- The bytes behind the length are fewer than the length says.
unread_entry : (readdir rd (fdopendir 3) listing).0 ≡ record { fd = 3; cur = none }
unfolding readdir fdopendir gbit16 gbit8
unread_entry = refl
