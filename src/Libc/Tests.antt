-- ===== src/Libc/Tests.antt =====
-- Attributes and memory at concrete values.
use yax.Base.{◌≡◌, ◌∷◌, ◌++◌, [], arith, get_or}
use yax.Libc.Mem.{memmove, moved, memmove_lem}
use yax.Libc.Stat.{Stat, Fits, stat_to_msg, msg_to_stat, msg_to_stat-stat_to_msg}

abbrev stat : Stat
stat = record { ino = 3; mode = 256; size = 10; atime = 1; mtime = 2; uid = 0; gid = 0 }

stat-Fits : Fits stat
stat-Fits = record {
  ino = omega arith;
  mode = omega arith;
  size = omega arith;
  atime = omega arith;
  mtime = omega arith;
  uid = omega arith;
  gid = omega arith;
}

msg_to_stat-stat_to_msg_example : msg_to_stat (stat_to_msg stat 64 ++ (9 ∷ [])) ≡ stat
msg_to_stat-stat_to_msg_example = msg_to_stat-stat_to_msg stat 64 (9 ∷ []) stat-Fits (omega arith)

memmove_lem_example :
    get_or (memmove (1 ∷ 2 ∷ 3 ∷ 4 ∷ []) 1 0 3) 2 0 ≡ moved (1 ∷ 2 ∷ 3 ∷ 4 ∷ []) 1 0 3 2
memmove_lem_example = memmove_lem (1 ∷ 2 ∷ 3 ∷ 4 ∷ []) 1 0 3 2 (omega arith) (omega arith)
