-- ===== src/Yaxfs/File.antt =====
-- libyaxfs/file.c: files and directories. A file is a number, a store gives its contents, and a
-- directory's `aux` is a vector of files. A name is its characters, without the terminator.
pub mod Lookup
use yax.Base.{
  ℕ, zero, suc, ◌+◌, ◌-◌, ◌*◌, ◌%◌, ◌^◌, ◌<◌, ◌≤◌, ◌≡◌, refl, Bool, true, false, Option, none, some,
  List, [], ◌∷◌, ◌++◌, arith, length, ltb, leb, ◌==◌, if◌then◌else◌,
}
use yax.Base.Int.{ℤ, pos}
use yax.Codas.Bit.{Bytes, pbit16}
use yax.Codas.Vector.{
  Vec, vec_new, vec_len, vec_get, vec_load, vec_push, vec_rem_swap, vec_iter, vec_iter_next,
}
use yax.Libc.Str.{strncmp}
use yax.Libc.Stat.{Stat, statmsgsiz, stat_to_msg}

-- `is_dir` says that `freeaux` is `freedir`.
pub record File : Type 0 where
  pub lncnt : ℕ
  pub name : Bytes
  pub st : Stat
  pub dir : Vec ℕ
  pub is_dir : Bool

abbrev pub Files : Type 0
Files = ℕ → File

abbrev put : Files → ℕ → File → Files
put fs h f j = if j == h then f else fs j

unfoldable pub file_new : Stat → Bytes → File
file_new st name = record { lncnt = 0; name = name; st = st; dir = vec_new; is_dir = false }

unfoldable pub dir_new : Stat → Bytes → File
dir_new st name = record { lncnt = 0; name = name; st = st; dir = vec_new; is_dir = true }

unfoldable pub dir_add_file : ℕ → Files → ℕ → ℕ → Files
unfolding vec_push
dir_add_file fresh fs d f =
    let fs' = put fs d (record (fs d) { dir = vec_push fresh (fs d).dir f }) in
    put fs' f (record (fs' f) { lncnt = (fs' f).lncnt + 1 })

-- The loop from position `i` on, `k` positions left; it compares the address of the slot with `f`.
dir_del_from : Vec ℕ → ℕ → ℕ → ℕ → Vec ℕ
unfolding vec_rem_swap
dir_del_from d f zero i = d
dir_del_from d f (suc k) i =
    let rest = dir_del_from d f k (i + 1) in if vec_get d i == f then vec_rem_swap d i else rest

unfoldable pub dir_del_file : Files → ℕ → ℕ → Files
unfolding dir_del_from
dir_del_file fs d f =
    put fs d (record (fs d) { dir = dir_del_from (fs d).dir f (vec_len (fs d).dir) 0 })

-- `dirreadent`: the bytes of one entry, none if they do not fit.
unfoldable pub dirreadent : File → ℕ → Bytes
unfolding stat_to_msg pbit16
dirreadent f len =
    let dlen = 2 + statmsgsiz + (2 + length f.name) in
    if ltb len dlen
    then []
    else pbit16 dlen ++ (stat_to_msg f.st (len - 2) ++ (pbit16 (length f.name) ++ f.name))

pub data Walk : Type 0 where
  found : ℕ → Walk
  missing : Walk
  past_end : Walk
  out_of_fuel : Walk

-- The loop of `dirwalk` at a cursor; `past_end` is a read outside the vector or the strings.
walk_from : ℕ → Files → Vec ℕ → Bytes → ℕ → Option ℕ → Walk
walk_from zero fs d name len c = out_of_fuel
walk_from (suc k) fs d name len none = missing
walk_from (suc k) fs d name len (some c) = elim (vec_load d c) [
  | none ↦ past_end
  | some h ↦ elim (strncmp ((fs h).name ++ (0 ∷ [])) name len) [
    | none ↦ past_end
    | some r ↦ elim r [ pos zero ↦ found h | _ ↦ walk_from k fs d name len (vec_iter_next d c) ]
  ]
]

unfoldable pub dirwalk : Files → ℕ → Bytes → ℕ → Walk
unfolding walk_from vec_iter vec_iter_next vec_load strncmp
dirwalk fs f name len =
    walk_from (vec_len (fs f).dir + 2) fs (fs f).dir name len (vec_iter (fs f).dir)

-- What `dirreadents` leaves: the bytes and the cursor; `outside` is a read behind the last file.
pub data Readents : Type 0 where
  entries : Bytes → Option ℕ → Readents
  outside : Readents
  endless : Readents

-- The loop, with fuel, at a cursor and with the bytes written.
unfoldable pub readents_from : ℕ → Files → Vec ℕ → ℕ → Bytes → Option ℕ → Readents
unfolding dirreadent vec_load vec_iter_next
readents_from zero fs d len out c = endless
readents_from (suc k) fs d len out none = entries out none
readents_from (suc k) fs d len out (some c) =
    if leb len (length out) then entries out (some c) else elim (vec_load d c) [
      | none ↦ outside
      | some h ↦
          readents_from k fs d len (out ++ dirreadent (fs h) (len - length out)) (vec_iter_next d c)
    ]

unfoldable pub dirreadents : Files → ℕ → Option ℕ → ℕ → Readents
unfolding readents_from vec_iter vec_iter_next
dirreadents fs f cursor len =
    let d = (fs f).dir in
    let start : Option ℕ = elim cursor [ none ↦ vec_iter d | some c ↦ vec_iter_next d c ] in
    readents_from (vec_len d + 3) fs d len [] start

-- One link less; the file is freed with the last.
unfoldable pub file_del : File → Option File
file_del f = let f' = record f { lncnt = f.lncnt - 1 } in if f.lncnt - 1 == 0 then none else some f'
