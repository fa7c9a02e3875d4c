-- ===== src/Kernel/Mount/Search.antt =====
-- src/fs/name.c: the search for a path comes to an end.
use yax.Base.{
  ℕ, zero, suc, ◌+◌, ◌*◌, ◌<◌, ◌≤◌, ◌≡◌, ◌≢◌, Bool, false, Option, none, some, List, [], ◌∷◌, arith,
  if◌then◌else◌, refl, Bool-cases, inl, inr, ◌⊎◌, length, Option-cases,
}
use native.Mathlib.Nat.{mul-le-mul_right}
use yax.Codas.Bit.{Bytes}
use yax.Kernel.Name.{nameclean}
use yax.Kernel.Mount.{
  Conn, Walked, walked, refused, Devs, Mount, component, skip_slash, find_mount, is_null,
  out_of_fuel, Round, again, onward, fail, no_conn, walk_step, search_round, getfid_from, name_fuel,
  vfsgetfid, qideq, conndup,
}

component-shorter : (s : Bytes) → length (component s).1 ≤ length s
unfolding component
component-shorter [] = omega arith
component-shorter (c ∷ s) = ground (arith, component-shorter s)

shorter :
    (r : Bytes) {n : ℕ} → is_null (skip_slash r) ≡ false → length r ≤ n → length (skip_slash r) < n
shorter [] h l = absurd (ground arith)
shorter (c ∷ s) h l = omega arith

rest-shorter :
    (s : Bytes)
    → is_null (skip_slash (component s).1) ≡ false
    → length (skip_slash (component s).1) < length s
rest-shorter s h = shorter (component s).1 h (component-shorter s)

find_mount-shorter :
    (m : Option Conn) (ms : List Mount) (to : Conn) (behind : List Mount)
    → find_mount m ms ≡ some (to, behind)
    → length behind < length ms
unfolding find_mount
find_mount-shorter m [] to behind e = absurd (ground arith)
find_mount-shorter m (x ∷ xs) to behind e = elim (Bool-cases (qideq m x.from)) [
  | inl h ↦ ground arith
  | inr h ↦
      let e' : find_mount m xs ≡ some (to, behind) = ground arith in
      let s = find_mount-shorter m xs to behind e' in omega arith
]

pub Walked-cases :
    (w : Walked) → ((i : ℕ) × (j : ℕ) × (w ≡ walked i j)) ⊎ ((e : ℕ) × (w ≡ refused e))
Walked-cases (walked i j) = inl (i, j, refl)
Walked-cases (refused e) = inr (e, refl)

walk_step-again :
    (ds : Devs) (nolast : Bool) (name : Bytes) (mount mount' : List Mount)
    (m prevm m' : Option Conn)
    → walk_step ds nolast name mount m prevm ≡ again mount' m'
    → (mount' ≡ mount) × (is_null mount ≡ false)
unfolding walk_step
walk_step-again ds nolast name mount mount' none prevm m' e = absurd (ground arith)
walk_step-again ds nolast name mount mount' (some c) prevm m' e =
    elim (Walked-cases (ds.walk c (component name).0)) [
      | inl (i, j, w) ↦ absurd (ground arith)
      | inr (er, w) ↦ (ground arith, ground arith)
    ]

round-again :
    (ds : Devs) (sname : Bytes) (nolast : Bool) (name : Bytes) (mount mount' : List Mount)
    (m m' : Option Conn)
    → search_round ds sname nolast name mount m ≡ again mount' m'
    → (length mount' < length mount) × (is_null mount' ≡ false)
unfolding search_round
round-again ds sname nolast name mount mount' m m' e = elim (Option-cases (find_mount m mount)) [
  | inl no_mount ↦
      let e' : walk_step ds nolast name [] m none ≡ again mount' m' = ground arith in
      let (x, y) = walk_step-again ds nolast name [] mount' m none m' e' in absurd (ground arith)
  | inr ((to, behind), f) ↦ elim (Option-cases (conndup ds to sname)) [
    | inl c ↦ absurd (ground arith)
    | inr (c, d) ↦
        let e' : walk_step ds nolast name behind (some c) m ≡ again mount' m' = ground arith in
        let (x, y) = walk_step-again ds nolast name behind mount' (some c) m m' e' in
        (rw x (find_mount-shorter m mount to behind f), rw x y)
  ]
]

Round-cases :
    (r : Round)
    → ((ms : List Mount) × (m : Option Conn) × (r ≡ again ms m))
      ⊎ ((m : Option Conn) × (r ≡ onward m))
      ⊎ ((e : ℕ) × (r ≡ fail e))
      ⊎ (r ≡ no_conn)
Round-cases (again ms m) = inl (ms, m, refl)
Round-cases (onward m) = inr (inl (m, refl))
Round-cases (fail e) = inr (inr (inl (e, refl)))
Round-cases no_conn = inr (inr (inr refl))

-- The mounts that are tried next.
abbrev or_all : List Mount → List Mount → List Mount
or_all mounts mount = if is_null mount then mounts else mount

getfid_from-ends :
    (k : ℕ) (ds : Devs) (mounts : List Mount) (sname : Bytes) (nolast : Bool) (name : Bytes)
    (mount : List Mount) (m : Option Conn)
    → length name * suc (length mounts) + length (or_all mounts mount) < k
    → getfid_from k ds mounts sname nolast name mount m ≢ out_of_fuel
unfolding getfid_from
getfid_from-ends zero ds mounts sname nolast name mount m h = absurd (omega arith)
getfid_from-ends (suc k) ds mounts sname nolast name mount m h =
    elim (Round-cases (search_round ds sname nolast name (or_all mounts mount) m)) [
      | inl (mount', m', r) ↦
          let (x, y) = round-again ds sname nolast name (or_all mounts mount) mount' m m' r in
          let same : or_all mounts mount' ≡ mount' = rw y refl in
          rw (r, getfid_from)
            (getfid_from-ends k ds mounts sname nolast name mount' m' (rw same (omega arith)))
      | inr (inl (c, r)) ↦ elim (Bool-cases (is_null (skip_slash (component name).1))) [
        | inl z ↦ rw (r, getfid_from) (rw z (λ e. ground arith))
        | inr z ↦
            let less = mul-le-mul_right (suc (length mounts)) (rest-shorter name z) in
            rw (r, getfid_from)
              (rw z (
                getfid_from-ends k ds mounts sname nolast (skip_slash (component name).1) [] c
                  (omega arith)))
      ]
      | inr (inr (inl (e, r))) ↦ rw (r, getfid_from) (λ x. ground arith)
      | inr (inr (inr r)) ↦ rw (r, getfid_from) (λ x. ground arith)
    ]

-- For a name that is cleaned, the search for a path comes to an end with the fuel that it is given,
-- whatever the table of mounts and the devices: each round takes a component off the name or a
-- mount off those that are left.
pub vfsgetfid-ends :
    (ds : Devs) (mounts : List Mount) (cwd name new : Bytes) (nolast : Bool)
    → nameclean cwd name ≡ some new
    → vfsgetfid ds mounts cwd name nolast ≢ out_of_fuel
unfolding vfsgetfid
vfsgetfid-ends ds mounts cwd name new nolast c =
    rw (c, vfsgetfid)
      (getfid_from-ends (name_fuel (skip_slash new) mounts) ds mounts new nolast (skip_slash new) []
        none (omega arith))
