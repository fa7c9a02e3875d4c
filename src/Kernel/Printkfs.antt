-- ===== src/Kernel/Printkfs.antt =====
-- src/fs/printkfs.c: the connection that prints what is written to it.
mod Tests
use yax.Base.{ℕ, ◌+◌, ◌*◌, ◌^◌, Bool, List, [], ◌||◌, ◌==◌, if◌then◌else◌, has_bit, length}
use yax.Base.Int.{ℤ, pos, neg}
use yax.Codas.Bit.{Bytes}
use yax.Codes.{eacces, enosys, m_swrite, m_stat, m_open, o_excl, o_trunc}
use yax.Libc.Stat.{Stat, stat_to_msg, statmsgsiz}
use yax.Kernel.Printk.{nprintk}

-- What a message leaves: the bytes printed, those in the caller's buffer, and the result.
pub record Printed : Type 0 where
  pub printed : Bytes
  pub reply : Bytes
  pub result : ℤ

-- A FIFO that can be written by its owner.
abbrev pub printkfs_stat : Stat
printkfs_stat = record {
  ino = 0;
  mode = 6 * 2 ^ 28 + 128;
  size = 0;
  atime = 0;
  mtime = 0;
  uid = 0;
  gid = 0;
}

unfoldable pub printkfs_fn : ℕ → ℕ → Bytes → ℕ → Printed
unfolding nprintk stat_to_msg
printkfs_fn fn submsg buf len =
    let msg = stat_to_msg printkfs_stat len in
    if fn == m_swrite
    then record { printed = nprintk buf; reply = []; result = pos (length buf) }
    else if fn == m_stat
    then record { printed = []; reply = msg; result = pos statmsgsiz }
    else if fn == m_open
    then (if has_bit submsg o_excl || has_bit submsg o_trunc
        then record { printed = []; reply = []; result = neg eacces }
        else record { printed = []; reply = []; result = pos 0 })
    else record { printed = []; reply = []; result = neg enosys }
