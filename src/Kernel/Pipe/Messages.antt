-- ===== src/Kernel/Pipe/Messages.antt =====
-- src/fs/pipe.c: `fn`, every message to one end of a pipe. A parked reader or writer goes on where it
-- stopped when the other end signals.
use yax.Base.{ℕ, [], none, some, length, ◌==◌, if◌then◌else◌}
use yax.Base.Int.{ℤ, pos, neg}
use yax.Codes.{enosys, m_open, m_sread, m_stat, m_swrite}
use yax.Codas.Bit.{Bytes}
use yax.Libc.Stat.{statmsgsiz}
use yax.Kernel.Pipe.{
  Buf, End, returned, blocked, out_of_fuel, pipe_read, pipe_write, pipe_stat, pipe_open,
}

-- How a message ends: with a result, the bytes for the caller and the two buffers, or with a caller
-- that parks. A writer that parks has bytes left to write.
pub data PipeReply : Type 0 where
  replied : ℤ → Bytes → Buf → Buf → PipeReply
  reader_parks : PipeReply
  writer_parks : Bytes → Buf → PipeReply
  no_fuel : PipeReply

-- A message to the end `p` with the inode `ino`, which reads `b` and writes `a`.
unfoldable pub pipe_fn : ℕ → End → ℕ → ℕ → Bytes → ℕ → Buf → Buf → PipeReply
pipe_fn ino p fn submsg buf len b a =
    if fn == m_sread
    then elim (pipe_read p len b) [
      | none ↦ reader_parks
      | some (xs, b') ↦ replied (pos (length xs)) xs b' a
    ]
    else if fn == m_swrite
    then elim (pipe_write p buf a) [
      | returned n a' ↦ replied (pos n) [] b a'
      | blocked rest a' ↦ writer_parks rest a'
      | out_of_fuel ↦ no_fuel
    ]
    else if fn == m_stat
    then replied (pos statmsgsiz) (pipe_stat ino (some b) len) b a
    else if fn == m_open
    then replied (pipe_open submsg) [] b a
    else replied (neg enosys) [] b a
