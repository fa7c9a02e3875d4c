-- ===== src/Kernel/Mount/Tests.antt =====
-- The table of mounts at small inputs.
use yax.Base.{if◌then◌else◌, ◌==◌, ℕ, ◌+◌, ◌≡◌, ◌≢◌, refl, false, none, some, List, [], ◌∷◌, arith}
use yax.Codas.Bit.{Bytes}
use yax.Kernel.Name.{clean_from, copy_component, rev_onto, nameclean, slash, clean}
use yax.Kernel.Mount.{Conn, Devs, Mount, walked, refused, out_of_fuel, vfsgetfid, conndup}
use yax.Kernel.Mount.Search.{vfsgetfid-ends}
use yax.Kernel.Mount.Root.{walk_all, vfsgetfid-walk_all}

abbrev conn : ℕ → Conn
conn i = record { dev = 1; inst = 0; name = []; ino = i }

-- Every inode has the entry `a`, the inode behind it.
abbrev devs : Devs
devs = record {
  dup = λ c. some c;
  walk = λ c s. elim s [
    | [] ↦ refused 11
    | x ∷ xs ↦ if x == 97 then walked 0 (c.ino + 1) else refused 11
  ];
  mopen = λ c fl. none;
}

abbrev path : Bytes
path = slash ∷ 97 ∷ slash ∷ []

abbrev root : List Mount
root = record { from = none; to = conn 2 } ∷ []

cleaned : nameclean [] path ≡ some path
unfolding nameclean clean clean_from copy_component rev_onto
cleaned = refl

vfsgetfid-ends_example : vfsgetfid devs root [] path false ≢ out_of_fuel
vfsgetfid-ends_example = vfsgetfid-ends devs root [] path path false cleaned

-- An entry of that directory.
abbrev inner : Bytes
inner = slash ∷ 97 ∷ slash ∷ 97 ∷ []

inner-cleaned : nameclean [] inner ≡ some inner
unfolding nameclean clean clean_from copy_component rev_onto
inner-cleaned = refl

dupped : conndup devs (conn 2) inner ≡ some (record (conn 2) { name = inner })
unfolding conndup
dupped = refl

vfsgetfid-walk_all_example :
    vfsgetfid devs root [] inner false
    ≡ walk_all devs ((97 ∷ []) ∷ (97 ∷ []) ∷ []) (record (conn 2) { name = inner })
vfsgetfid-walk_all_example =
    vfsgetfid-walk_all devs (conn 2) (record (conn 2) { name = inner }) [] inner ((97 ∷ []) ∷ [])
      (97 ∷ []) (omega arith) (omega arith) inner-cleaned dupped
