-- ===== src/Kernel/Mount/Table.antt =====
-- src/fs/name.c: changes of the table of mounts.
use yax.Base.{
  ℕ, false, Option, none, some, List, [], ◌∷◌, ◌≡◌, refl, ◌==◌, if◌then◌else◌, arith, Option-cases,
  inl, inr,
}
use yax.Codas.Bit.{Bytes}
use yax.Kernel.Name.{nameclean}
use yax.Kernel.Mount.{
  Conn, Devs, Mount, mountcopy, mfree, qideq, found, error, crash, out_of_fuel, vfsgetfid,
}

abbrev pub mrepl : ℕ
mrepl = 0

abbrev pub mbefore : ℕ
mbefore = 1

abbrev pub mafter : ℕ
mafter = 2

-- `*m = n` behind the mounts with the same place: the mount that stood there is lost.
unfoldable pub put_after : Mount → List Mount → List Mount
put_after n [] = n ∷ []
put_after n (x ∷ xs) = let rest = x ∷ put_after n xs in if qideq x.from n.from then rest else n ∷ xs

-- The new connection at a mount whose target is `c`; none where there is no such mount.
unfoldable pub place_mount : Conn → Option Conn → ℕ → List Mount → Option (List Mount)
unfolding put_after
place_mount newc c fl [] = none
place_mount newc c fl (x ∷ xs) =
    let n : Mount = record { from = x.from; to = newc } in
    let placed : List Mount =
      (if fl == mrepl
        then record x { to = newc } ∷ xs
        else if fl == mafter
        then put_after n (x ∷ xs)
        else n ∷ xs) in
    let rest : Option (List Mount) = elim (place_mount newc c fl xs) [
      | none ↦ none
      | some ys ↦ some (x ∷ ys)
    ] in
    if qideq (some x.to) c then some placed else rest

-- How a call ends.
pub data Mounted : Type 0 where
  mounted : List Mount → Mounted
  not_mounted : ℕ → Mounted
  stuck : Mounted

unfoldable pub vfsmount : Devs → List Mount → Bytes → Bytes → Conn → ℕ → Mounted
unfolding place_mount
vfsmount ds mounts cwd name newc fl = elim (vfsgetfid ds mounts cwd name false) [
  | found c ↦ elim (place_mount newc c fl mounts) [
    | none ↦ mounted (record { from = c; to = newc } ∷ mounts)
    | some ms ↦ mounted ms
  ]
  | error e ↦ not_mounted e
  | crash ↦ stuck
  | out_of_fuel ↦ stuck
]

-- The new working directory.
unfoldable pub vfschdir : Bytes → Bytes → Option Bytes
unfolding nameclean
vfschdir cwd name = nameclean cwd name

-- A copy of a table is that table, and takes a reference to each connection that is to lose one when
-- the copy is freed.
pub mountcopy-mfree : (ms : List Mount) → mountcopy ms ≡ (ms, mfree ms)
unfolding mountcopy mfree
mountcopy-mfree [] = refl
mountcopy-mfree (m ∷ ms) = elim (Option-cases m.from) [
  | inl e ↦ ground (arith, mountcopy-mfree ms)
  | inr (c, e) ↦ ground (arith, mountcopy-mfree ms)
]

-- To mount in front of a connection that is mounted does what it does to replace it: the table is the
-- same, and the connection that was there is not in it any more.
pub place_mount-before :
    (newc : Conn) (c : Option Conn) (ms : List Mount)
    → place_mount newc c mbefore ms ≡ place_mount newc c mrepl ms
unfolding place_mount
place_mount-before newc c [] = refl
place_mount-before newc c (x ∷ xs) = rw (place_mount-before newc c xs) refl
