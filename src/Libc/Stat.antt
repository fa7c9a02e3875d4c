-- ===== src/Libc/Stat.antt =====
-- libc/stat.c: a file's attributes as a message. The device numbers and the nanoseconds, which the
-- message does not carry, are left out; words are bit patterns.
use yax.Base.{ℕ, ◌^◌, ◌<◌, ◌≤◌, false, ◌≡◌, [], ◌++◌, arith, drop, ltb, if◌then◌else◌, append_assoc}
use yax.Codas.Bit.{
  Bytes, pbit32, pbit64, gbit32, gbit64, gbit32-pbit32, gbit64-pbit64, drop-pbit32, drop-pbit64,
}

pub record Stat : Type 0 where
  pub ino : ℕ
  pub mode : ℕ
  pub size : ℕ
  pub atime : ℕ
  pub mtime : ℕ
  pub uid : ℕ
  pub gid : ℕ

abbrev pub statmsgsiz : ℕ
statmsgsiz = 44

-- The bytes written into a buffer of `len` bytes; the function returns `statmsgsiz` in any case.
unfoldable pub stat_to_msg : Stat → ℕ → Bytes
stat_to_msg st len =
    if ltb len statmsgsiz
    then []
    else pbit64 st.ino
      ++ (pbit32 st.mode
          ++ (pbit64 st.size
              ++ (pbit64 st.atime ++ (pbit64 st.mtime ++ (pbit32 st.uid ++ pbit32 st.gid)))))

unfoldable pub msg_to_stat : Bytes → Stat
msg_to_stat b = record {
  ino = gbit64 b;
  mode = gbit32 (drop 8 b);
  size = gbit64 (drop 4 (drop 8 b));
  atime = gbit64 (drop 8 (drop 4 (drop 8 b)));
  mtime = gbit64 (drop 8 (drop 8 (drop 4 (drop 8 b))));
  uid = gbit32 (drop 8 (drop 8 (drop 8 (drop 4 (drop 8 b)))));
  gid = gbit32 (drop 4 (drop 8 (drop 8 (drop 8 (drop 4 (drop 8 b))))));
}

-- The attributes fit their fields of the message.
pub record Fits (st : Stat) : Type 0 where
  pub ino : st.ino < 2 ^ 64
  pub mode : st.mode < 2 ^ 32
  pub size : st.size < 2 ^ 64
  pub atime : st.atime < 2 ^ 64
  pub mtime : st.mtime < 2 ^ 64
  pub uid : st.uid < 2 ^ 32
  pub gid : st.gid < 2 ^ 32

-- Attributes that fit, written into a buffer that is long enough and followed by anything, are read
-- back as they were.
pub msg_to_stat-stat_to_msg :
    (st : Stat) (len : ℕ) (r : Bytes)
    → Fits st
    → statmsgsiz ≤ len
    → msg_to_stat (stat_to_msg st len ++ r) ≡ st
unfolding stat_to_msg msg_to_stat
msg_to_stat-stat_to_msg st len r f h =
    let long : ltb len statmsgsiz ≡ false = ground arith in
    simp (long, append_assoc, drop-pbit64, drop-pbit32, gbit64-pbit64, gbit32-pbit32) (ground arith)
