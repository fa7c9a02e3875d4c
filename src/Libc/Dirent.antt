-- ===== src/Libc/Dirent.antt =====
-- libc/dirent: reading a directory. The system calls that read are an argument, `rd`, which gives the
-- bytes of a read of a length in a state of the descriptor, or nothing for an error.
mod Tests
use yax.Base.{
  ℕ, ◌+◌, ◌-◌, Bool, true, false, Option, none, some, List, [], ◌∷◌, ltb, if◌then◌else◌, length,
  take, drop,
}
use yax.Codas.Bit.{Bytes, gbit16}
use yax.Libc.Stat.{msg_to_stat, statmsgsiz}

pub record Dirent : Type 0 where
  pub ino : ℕ
  pub name : Bytes

pub record Dir : Type 0 where
  pub fd : ℕ
  pub cur : Option Dirent

unfoldable pub fdopendir : ℕ → Dir
fdopendir fd = record { fd = fd; cur = none }

-- A descriptor that is negative is `none`.
unfoldable pub opendir : Option ℕ → Option Dir
unfolding fdopendir
opendir none = none
opendir (some fd) = some (fdopendir fd)

-- The descriptor that is closed.
unfoldable pub closedir : Dir → ℕ
closedir d = d.fd

-- The entry in the buffer: the attributes begin two bytes behind its start.
unfoldable pub dirent_of : Bytes → Dirent
dirent_of buf =
    let len = gbit16 (drop (2 + statmsgsiz) buf) in
    record { ino = (msg_to_stat (drop 2 buf)).ino; name = take len (drop (2 + statmsgsiz + 2) buf) }

module _ {D : Type 0} (rd : ℕ → D → Option Bytes × D) where
  -- The directory afterwards, which holds the entry, and the descriptor's state.
  unfoldable pub readdir : Dir → D → Dir × D
  unfolding dirent_of
  readdir d s =
      let (blen, s1) = rd 2 s in
      elim blen [
        | none ↦ (record d { cur = none }, s1)
        | some b ↦
            if ltb (length b) 2
            then (record d { cur = none }, s1)
            else (let (buf, s2) = rd (gbit16 b) s1 in
                elim buf [
                  | none ↦ (record d { cur = none }, s2)
                  | some c ↦
                      if ltb (length c) (gbit16 b)
                      then (record d { cur = none }, s2)
                      else (record d { cur = some (dirent_of c) }, s2)
                ])
      ]
