-- ===== src/Yaxfs/Dofunc/Access.antt =====
-- What a request may do with a fid.
use yax.Base.{ℕ, ◌≡◌, ◌⊎◌, true, none, some, arith, if◌then◌else◌, has_bit}
use yax.Base.Int.{ℤ, pos, neg, ◌+ℤ◌, is_pos}
use yax.Codes.{eacces, o_rdonly, o_wronly}
use yax.Yaxfs.Fid.{Fid}
use yax.Yaxfs.File.{Files}
use yax.Yaxfs.Dofunc.{
  Req, Reply, Func, After, do_open, do_pwrite, do_swrite, do_pread, do_sread, do_seek, do_walk,
  do_stat, deffunc,
}

-- The open mode asks for no more than the permission bits of the fid's file allow.
pub record IsAllowed (fs : Files) (fid : Fid) : Type 0 where
  pub read : has_bit fid.omode o_rdonly ≡ true → has_bit (fs fid.file).st.mode 8 ≡ true
  pub write : has_bit fid.omode o_wronly ≡ true → has_bit (fs fid.file).st.mode 7 ≡ true

module _ {D : Type 0} (fs : Files) (f : Func D) (r : Req) (fid : Fid) (d : D) where
  unopened-pwrite : fid.omode ≡ 0 → (do_pwrite f r fid d).device ≡ d
  unfolding do_pwrite
  unopened-pwrite h = ground arith

  unopened-swrite : fid.omode ≡ 0 → (do_swrite f r fid d).device ≡ d
  unfolding do_swrite
  unopened-swrite h = ground arith

  unopened-pread : fid.omode ≡ 0 → (do_pread f r fid d).device ≡ d
  unfolding do_pread
  unopened-pread h = ground arith

  unopened-sread : fid.omode ≡ 0 → (do_sread f r fid d).device ≡ d
  unfolding do_sread
  unopened-sread h = ground arith

  device-open : (do_open fs r fid d).device ≡ d
  unfolding do_open
  device-open = ground arith

  device-seek : (do_seek fs r fid d).device ≡ d
  unfolding do_seek
  device-seek = ground arith

  device-stat : (do_stat fs r fid d).device ≡ d
  unfolding do_stat
  device-stat = ground arith

  device-walk : (a : After D) → do_walk fs r fid d ≡ some a → a.device ≡ d
  unfolding do_walk
  device-walk a e = ground arith

  -- A fid that has not been opened reaches no callback: whatever the request that is answered, the
  -- device is unchanged.
  pub deffunc_unopened :
      {a : After D} → fid.omode ≡ 0 → deffunc fs f r fid d ≡ some a → a.device ≡ d
  unfolding deffunc
  deffunc_unopened {a} h e = ground (
    arith,
    unopened-pwrite h,
    unopened-swrite h,
    unopened-pread h,
    unopened-sread h,
    device-open,
    device-seek,
    device-stat,
    device-walk a,
  )

  -- An open either fails with EACCES and leaves the fid alone, or succeeds and leaves a mode that the
  -- file allows.
  pub do_open-IsAllowed :
      let a = do_open fs r fid d in
      ((a.req.ret ≡ neg eacces) × (a.fid ≡ fid)) ⊎ ((a.req.ret ≡ pos 0) × IsAllowed fs a.fid)
  unfolding do_open
  do_open-IsAllowed = ground arith

  -- A positioned read or write with only the sequential callback puts the offset back: the fid keeps
  -- its offset, whatever the callback does to it.
  pub pread-off : f.pread ≡ none → (do_pread f r fid d).fid.off ≡ fid.off
  unfolding do_pread
  pread-off h = ground arith

  -- A sequential read by the positioned callback moves the offset by what was read: by the result if
  -- that is positive, and not at all if not, for a callback that leaves the fid alone.
  pub sread-off :
      (g : Fid → ℕ → ℤ → D → Reply D)
      → has_bit fid.omode o_rdonly ≡ true
      → f.read ≡ none
      → f.pread ≡ some g
      → (g fid r.len fid.off d).fid ≡ fid
      → let a = do_sread f r fid d in
        a.fid.off ≡ (if is_pos a.req.ret then fid.off +ℤ a.req.ret else fid.off)
  unfolding do_sread
  sread-off g o h k same = ground arith
