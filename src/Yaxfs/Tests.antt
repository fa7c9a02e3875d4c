-- ===== src/Yaxfs/Tests.antt =====
-- Pools and directories at concrete contents.
use yax.Base.{◌≡◌, refl, none, some, [], ◌∷◌, true, arith}
use yax.Base.Int.{pos}
use yax.Codas.Vector.{IsValid}
use yax.Libc.Stat.{Stat}
use yax.Yaxfs.Fid.{Fid, Fidpool}
use yax.Yaxfs.File.{Files, dirreadents, outside}

abbrev fid : Fid
fid = record { off = pos 0; omode = 0; dirread = none; file = 1; aux = 0 }

-- Slot 0 is free.
abbrev pool : Fidpool
pool = record { ptr = 4096; items = none ∷ some fid ∷ []; cap = 16 }

pool-IsValid : IsValid pool
pool-IsValid = record { fits = omega arith; buffer = λ _. omega arith }

abbrev stat : Stat
stat = record { ino = 1; mode = 256; size = 0; atime = 0; mtime = 0; uid = 0; gid = 0 }

-- File 0 is a directory with file 1 in it, whose name is `cons`.
abbrev files : Files
files h = record {
  lncnt = 1;
  name = 99 ∷ 111 ∷ 110 ∷ 115 ∷ [];
  st = stat;
  dir = record { ptr = 4096; items = 1 ∷ []; cap = 16 };
  is_dir = true;
}

-- With room for more than the one entry, whose size is 52 bytes, the listing reads behind it.
dirreadents-outside : dirreadents files 0 none 64 ≡ outside
unfolding dirreadents yax.Libc.Stat.stat_to_msg yax.Codas.Bit.pbit64 yax.Codas.Bit.pbit32
    yax.Codas.Bit.pbit16
dirreadents-outside = refl
