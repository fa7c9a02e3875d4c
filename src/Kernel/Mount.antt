-- ===== src/Kernel/Mount.antt =====
-- src/fs/name.c, src/fs/conn.c: the table of mounts and the search for a path. A connection is its
-- device, the device's data, the inode and the name; a pointer to one is an option. The devices are
-- parameters. The counts of references are kept where a mount table is copied or freed.
pub mod Search
pub mod Root
pub mod Table
mod Tests
use yax.Base.{
  ℕ, zero, suc, ◌+◌, ◌-◌, ◌*◌, ◌^◌, Bool, true, false, not, Option, none, some, List, [], ◌∷◌, ◌++◌,
  ◌&&◌, ◌||◌, ◌==◌, if◌then◌else◌, has_bit, length,
}
use yax.Codas.Bit.{Bytes}
use yax.Codes.{o_creat, o_path}
use yax.Kernel.Name.{slash, nameclean}

pub record Conn : Type 0 where
  pub dev : ℕ
  pub inst : ℕ
  pub name : Bytes
  pub ino : ℕ

-- What a walk gives: the device's data and the inode afterwards, or the error.
pub data Walked : Type 0 where
  walked : ℕ → ℕ → Walked
  refused : ℕ → Walked

-- The devices: a copy of a connection (none is an error, at which the kernel writes to the error's
-- address), a walk to a name, and the error of opening with the flags, none where it goes well.
pub record Devs : Type 0 where
  pub dup : Conn → Option Conn
  pub walk : Conn → Bytes → Walked
  pub mopen : Conn → ℕ → Option ℕ

pub record Mount : Type 0 where
  pub from : Option Conn
  pub to : Conn

-- A copy of the table, with the connections that get a reference.
unfoldable pub mountcopy : List Mount → List Mount × List Conn
mountcopy [] = ([], [])
mountcopy (m ∷ ms) =
    let (ms', refs) = mountcopy ms in
    (
      record { from = m.from; to = m.to } ∷ ms',
      elim m.from [ none ↦ m.to ∷ refs | some c ↦ c ∷ m.to ∷ refs ],
    )

-- The connections that lose a reference when a table is freed.
unfoldable pub mfree : List Mount → List Conn
mfree [] = []
mfree (m ∷ ms) =
    let refs = mfree ms in elim m.from [ none ↦ m.to ∷ refs | some c ↦ c ∷ m.to ∷ refs ]

unfoldable pub qideq : Option Conn → Option Conn → Bool
qideq none none = true
qideq none (some b) = false
qideq (some a) none = false
qideq (some a) (some b) = (a.dev == b.dev) && ((a.inst == b.inst) && (a.ino == b.ino))

-- The copy has the name that is given.
unfoldable pub conndup : Devs → Conn → Bytes → Option Conn
conndup ds c name = elim (ds.dup c) [ none ↦ none | some d ↦ some (record d { name = name }) ]

-- The name up to the slash, and what is left from there.
unfoldable pub component : Bytes → Bytes × Bytes
component [] = ([], [])
component (c ∷ s) =
    let (part, rest) = component s in if c == slash then ([], c ∷ s) else (c ∷ part, rest)

abbrev pub skip_slash : Bytes → Bytes
skip_slash [] = []
skip_slash (c ∷ s) = s

-- The inner loop: the first mount at a connection, with those behind it.
unfoldable pub find_mount : Option Conn → List Mount → Option (Conn × List Mount)
unfolding qideq
find_mount m [] = none
find_mount m (x ∷ xs) =
    let rest = find_mount m xs in if qideq m x.from then some (x.to, xs) else rest

abbrev pub is_null : {A : Type 0} → List A → Bool
is_null [] = true
is_null (x ∷ xs) = false

-- How the search ends: with a connection, which is null where the root is not mounted, with the error
-- of a walk, with a write to an error's address, or out of fuel.
pub data Found : Type 0 where
  found : Option Conn → Found
  error : ℕ → Found
  crash : Found
  out_of_fuel : Found

-- Whether the component is walked to.
abbrev pub walks : Bool → Bytes → Bool
walks nolast [] = false
walks nolast (c ∷ s) = not nolast

-- How a round of the loop ends.
pub data Round : Type 0 where
  again : List Mount → Option Conn → Round
  onward : Option Conn → Round
  fail : ℕ → Round
  no_conn : Round

-- The walk from a connection: at an error the next mount is tried, if there is one, from where the
-- mount was crossed.
unfoldable pub walk_step : Devs → Bool → Bytes → List Mount → Option Conn → Option Conn → Round
walk_step ds nolast name mount none prevm = onward none
walk_step ds nolast name mount (some c) prevm =
    if not (walks nolast name) then onward (some c) else elim (ds.walk c (component name).0) [
      | walked inst ino ↦ onward (some (record c { inst = inst; ino = ino }))
      | refused e ↦ if is_null mount then fail e else again mount prevm
    ]

-- A mount at the connection is crossed first.
unfoldable pub search_round : Devs → Bytes → Bool → Bytes → List Mount → Option Conn → Round
search_round ds sname nolast name mount m = elim (find_mount m mount) [
  | none ↦ walk_step ds nolast name [] m none
  | some (to, behind) ↦ elim (conndup ds to sname) [
    | none ↦ no_conn
    | some c ↦ walk_step ds nolast name behind (some c) m
  ]
]

-- The loop. `mounts` is the whole table, `mount` what is left of it, empty at the beginning and after a
-- walk that went well.
unfoldable pub getfid_from :
    ℕ → Devs → List Mount → Bytes → Bool → Bytes → List Mount → Option Conn → Found
getfid_from zero ds mounts sname nolast name mount m = out_of_fuel
getfid_from (suc k) ds mounts sname nolast name mount m =
    let rest = skip_slash (component name).1 in
    elim (search_round ds sname nolast name (if is_null mount then mounts else mount) m) [
      | again mount' m' ↦ getfid_from k ds mounts sname nolast name mount' m'
      | onward c ↦ if is_null rest then found c else getfid_from k ds mounts sname nolast rest [] c
      | fail e ↦ error e
      | no_conn ↦ crash
    ]

abbrev pub name_fuel : Bytes → List Mount → ℕ
name_fuel name mounts = suc (length name * suc (length mounts) + length mounts)

unfoldable pub vfsgetfid : Devs → List Mount → Bytes → Bytes → Bool → Found
unfolding nameclean
vfsgetfid ds mounts cwd name nolast = elim (nameclean cwd name) [
  | none ↦ out_of_fuel
  | some new ↦
      let rel = skip_slash new in
      getfid_from (name_fuel rel mounts) ds mounts new nolast rel [] none
]

-- `vfsopen`: a null connection is opened as if it were one, and the kernel crashes.
unfoldable pub vfsopen : Devs → List Mount → Bytes → Bytes → ℕ → Found
vfsopen ds mounts cwd name fl = elim (vfsgetfid ds mounts cwd name (has_bit fl o_creat)) [
  | found c ↦ if has_bit fl o_path then found c else elim c [
    | none ↦ crash
    | some d ↦ elim (ds.mopen d fl) [ none ↦ found (some d) | some e ↦ error e ]
  ]
  | error e ↦ error e
  | crash ↦ crash
  | out_of_fuel ↦ out_of_fuel
]
