-- ===== src/Yaxfs/Dofunc.antt =====
-- libyaxfs/dofunc.c: the handling of one request. The callbacks of a file server act on a device, a
-- type `D` of their own, and on the fid; a null callback is `none`. A request holds the bytes at its
-- `buf`, and what a handler writes there or at `buf2` is `out`.
pub mod Access
mod Tests
use yax.Base.{
  ℕ, zero, suc, ◌+◌, ◌-◌, ◌/◌, ◌%◌, ◌^◌, ◌≡◌, Bool, true, false, not, Option, none, some, List, [],
  ◌∷◌, ◌++◌, ◌>>=◌, ltb, ◌==◌, if◌then◌else◌, has_bit, set, ◌&&◌,
}
use yax.Base.Int.{ℤ, pos, neg, ◌+ℤ◌, is_pos}
use yax.Codes.{
  eacces, ebadf, einval, enoent, enosys, enotdir, m_auth, m_open, m_sread, m_swrite, m_seek,
  m_pread, m_pwrite, m_stat, m_wstat, m_walk, m_dup, m_del, o_rdonly, o_wronly,
}
use yax.Codas.Bit.{Bytes, pbit64}
use yax.Libc.Stat.{statmsgsiz, stat_to_msg}
use yax.Yaxfs.Fid.{Fid, Fidpool, fid_add, fid_rem, fid_lookup}
use yax.Yaxfs.File.{Files, Walk, found, missing, dirwalk}

pub record Req : Type 0 where
  pub fn : ℕ
  pub submsg : ℕ
  pub fid : ℕ
  pub buf : Bytes
  pub len : ℕ
  pub len2 : ℕ
  pub off : ℤ
  pub ret : ℤ
  pub out : Bytes

module _ (D : Type 0) where
  -- What a callback returns: its result, the fid and the device, and the bytes that it read.
  pub record Reply : Type 0 where
    pub result : ℤ
    pub fid : Fid
    pub device : D
    pub bytes : Bytes

  -- `Func`: the callbacks.
  pub record Func : Type 0 where
    pub pwrite : Option (Fid → Bytes → ℕ → ℤ → D → Reply)
    pub write : Option (Fid → Bytes → ℕ → D → Reply)
    pub pread : Option (Fid → ℕ → ℤ → D → Reply)
    pub read : Option (Fid → ℕ → D → Reply)

  -- The state that a handler leaves.
  pub record After : Type 0 where
    pub req : Req
    pub fid : Fid
    pub device : D

  -- The pool after a request.
  pub record Served : Type 0 where
    pub req : Req
    pub pool : Fidpool
    pub device : D

module _ {D : Type 0} where
  abbrev pub fail : ℕ → Req → Fid → D → After D
  fail code r fid d = record { req = record r { ret = neg code }; fid = fid; device = d }

  abbrev pub done : ℤ → Req → Fid → D → After D
  done n r fid d = record { req = record r { ret = n }; fid = fid; device = d }

  abbrev pub took : Req → Reply D → After D
  took r p = record {
    req = record r { ret = p.result; out = p.bytes };
    fid = p.fid;
    device = p.device;
  }

  unfoldable pub do_open : Files → Req → Fid → D → After D
  do_open fs r fid d =
      if has_bit r.submsg o_rdonly && not (has_bit (fs fid.file).st.mode 8)
      then fail eacces r fid d
      else if has_bit r.submsg o_wronly && not (has_bit (fs fid.file).st.mode 7)
      then fail eacces r fid d
      else done (pos 0) r (record fid { omode = r.submsg % 256 }) d

  unfoldable pub do_pwrite : Func D → Req → Fid → D → After D
  do_pwrite f r fid d =
      if not (has_bit fid.omode o_wronly) then fail eacces r fid d else elim f.pwrite [
        | some pwrite ↦ took r (pwrite fid r.buf r.len r.off d)
        | none ↦ elim f.write [
          | some write ↦
              let p = write (record fid { off = r.off }) r.buf r.len d in
              took r (record p { fid = record (p.fid) { off = fid.off } })
          | none ↦ fail einval r fid d
        ]
      ]

  -- With neither callback the result of the request is left as it was.
  unfoldable pub do_swrite : Func D → Req → Fid → D → After D
  do_swrite f r fid d =
      if not (has_bit fid.omode o_wronly) then fail eacces r fid d else elim f.write [
        | some write ↦ took r (write fid r.buf r.len d)
        | none ↦ elim f.pwrite [
          | some pwrite ↦
              let p = pwrite fid r.buf r.len fid.off d in
              if is_pos p.result
              then took r (record p { fid = record (p.fid) { off = p.fid.off +ℤ p.result } })
              else took r p
          | none ↦ record { req = r; fid = fid; device = d }
        ]
      ]

  unfoldable pub do_pread : Func D → Req → Fid → D → After D
  do_pread f r fid d =
      if not (has_bit fid.omode o_rdonly) then fail ebadf r fid d else elim f.pread [
        | some pread ↦ took r (pread fid r.len r.off d)
        | none ↦ elim f.read [
          | some read ↦
              let p = read (record fid { off = r.off }) r.len d in
              took r (record p { fid = record (p.fid) { off = fid.off } })
          | none ↦ fail einval r fid d
        ]
      ]

  unfoldable pub do_sread : Func D → Req → Fid → D → After D
  do_sread f r fid d =
      if not (has_bit fid.omode o_rdonly) then fail ebadf r fid d else elim f.read [
        | some read ↦ took r (read fid r.len d)
        | none ↦ elim f.pread [
          | some pread ↦
              let p = pread fid r.len fid.off d in
              if is_pos p.result
              then took r (record p { fid = record (p.fid) { off = p.fid.off +ℤ p.result } })
              else took r p
          | none ↦ fail einval r fid d
        ]
      ]

  unfoldable pub do_seek : Files → Req → Fid → D → After D
  do_seek fs r fid d =
      if fid.omode == 0
      then fail ebadf r fid d
      else if r.submsg == 0
      then done r.off r (record fid { off = r.off }) d
      else if r.submsg == 1
      then done (fid.off +ℤ r.off) r (record fid { off = fid.off +ℤ r.off }) d
      else if r.submsg == 2
      then (let off = pos ((fs fid.file).st.size) +ℤ r.off in
          done off r (record fid { off = off }) d)
      else fail einval r fid d

  -- `none` is a read outside the directory or the names.
  unfoldable pub do_walk : Files → Req → Fid → D → Option (After D)
  do_walk fs r fid d =
      if not (r.len2 == 8)
      then some (fail einval r fid d)
      else if not (has_bit (fs fid.file).st.mode 31)
      then some (fail enotdir r fid d)
      else elim (dirwalk fs fid.file r.buf r.len) [
        | found h ↦ some (record {
          req = record r { ret = pos 0; out = pbit64 ((fs h).st.ino) };
          fid = record fid { file = h };
          device = d;
        })
        | missing ↦ some (fail enoent r fid d)
        | _ ↦ none
      ]

  unfoldable pub do_stat : Files → Req → Fid → D → After D
  do_stat fs r fid d = record {
    req = record r { ret = pos statmsgsiz; out = stat_to_msg (fs fid.file).st r.len };
    fid = fid;
    device = d;
  }

  unfoldable pub deffunc : Files → Func D → Req → Fid → D → Option (After D)
  deffunc fs f r fid d =
      if r.fn == m_open
      then some (do_open fs r fid d)
      else if r.fn == m_pwrite
      then some (do_pwrite f r fid d)
      else if r.fn == m_swrite
      then some (do_swrite f r fid d)
      else if r.fn == m_pread
      then some (do_pread f r fid d)
      else if r.fn == m_sread
      then some (do_sread f r fid d)
      else if r.fn == m_seek
      then some (do_seek fs r fid d)
      else if r.fn == m_walk
      then do_walk fs r fid d
      else if r.fn == m_stat
      then some (do_stat fs r fid d)
      else if r.fn == m_wstat
      then some (fail enosys r fid d)
      else some (fail enosys r fid d)

  -- `none` is a read outside the pool, the directory or the names.
  unfoldable pub dofunc : ℕ → Files → Func D → Req → Fidpool → D → Option (Served D)
  dofunc fresh fs f r pool d = do
    slot ← fid_lookup pool r.fid
    elim slot [
      | none ↦ some (record { req = record r { ret = neg ebadf }; pool = pool; device = d })
      | some fid ↦
          if r.fn == m_auth
          then some (record { req = record r { ret = neg eacces }; pool = pool; device = d })
          else if r.fn == m_del
          then some
              (record { req = record r { ret = pos 0 }; pool = (fid_rem pool r.fid).1; device = d })
          else if r.fn == m_dup
          then (let (n, pool') = fid_add fresh pool fid in
              some (record { req = record r { ret = pos n }; pool = pool'; device = d }))
          else (do
            a ← deffunc fs f r fid d
            some (record {
              req = a.req;
              pool = record pool { items = set pool.items r.fid (some a.fid) };
              device = a.device;
            }))
    ]
