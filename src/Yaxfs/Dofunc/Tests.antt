-- ===== src/Yaxfs/Dofunc/Tests.antt =====
-- Requests on a server whose device is a number that each callback raises.
use yax.Base.{ℕ, ◌+◌, ◌≡◌, refl, false, none, some, [], ◌∷◌}
use yax.Base.Int.{pos, neg}
use yax.Codes.{eacces, m_pwrite}
use yax.Codas.Vector.{vec_new}
use yax.Libc.Stat.{Stat}
use yax.Yaxfs.Fid.{Fid}
use yax.Yaxfs.File.{Files}
use yax.Yaxfs.Dofunc.{Req, Func, After, do_pwrite, deffunc}
use yax.Yaxfs.Dofunc.Access.{deffunc_unopened}

-- Mode 0400, for the owner to read.
abbrev readable : Stat
readable = record { ino = 1; mode = 256; size = 10; atime = 0; mtime = 0; uid = 0; gid = 0 }

abbrev files : Files
files h = record { lncnt = 1; name = []; st = readable; dir = vec_new; is_dir = false }

abbrev unopened : Fid
unopened = record { off = pos 0; omode = 0; dirread = none; file = 1; aux = 0 }

-- Opened for reading, 4 bytes in.
abbrev opened : Fid
opened = record unopened { omode = 1; off = pos 4 }

-- Reads give two bytes.
abbrev reads_by_position : Func ℕ
reads_by_position = record {
  pwrite =
      some (λ fid b len off d. record { result = pos len; fid = fid; device = d + 1; bytes = [] });
  write = none;
  pread =
      some
        (λ fid len off d. record { result = pos 2; fid = fid; device = d + 1; bytes = 8 ∷ 9 ∷ [] });
  read = none;
}

abbrev req : Req
req = record {
  fn = m_pwrite;
  submsg = 1;
  fid = 0;
  buf = 7 ∷ [];
  len = 1;
  len2 = 0;
  off = pos 3;
  ret = pos 0;
  out = [];
}

refused : After ℕ
refused = record { req = record req { ret = neg eacces }; fid = unopened; device = 5 }

deffunc-refused : deffunc files reads_by_position req unopened 5 ≡ some refused
unfolding deffunc do_pwrite refused
deffunc-refused = refl

deffunc_unopened_example : refused.device ≡ 5
deffunc_unopened_example =
    deffunc_unopened files reads_by_position req unopened 5 refl deffunc-refused
