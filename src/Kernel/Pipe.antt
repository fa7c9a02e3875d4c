-- ===== src/Kernel/Pipe.antt =====
-- src/fs/pipe.c: a pipe's two buffers. `filled` and `empty` are the values of the semaphores while
-- nobody waits, and a result `blocked` is a caller that parks on one. Bytes are numbers, which the
-- code only moves. The lock is not modelled: an operation runs alone between its waits.
pub mod Fifo
pub mod Messages
mod Tests
use yax.Base.{
  has_bit, ◌||◌, ◌*◌, ◌^◌, ℕ, zero, suc, ◌+◌, ◌-◌, ◌%◌, ◌≤◌, min, Bool, true, false, not, Option,
  none, some, List, [], ◌∷◌, ◌++◌, ◌>>=◌, length, get_or, set, take, drop, tabulate, leb, ◌==◌,
  if◌then◌else◌,
}
use yax.Base.Int.{ℤ, pos, neg}
use yax.Codes.{eacces, o_excl, o_trunc}
use yax.Codas.Bit.{Bytes}
use yax.Libc.Stat.{Stat, stat_to_msg}

abbrev pub buf_len : ℕ
buf_len = 4096

pub record Buf : Type 0 where
  pub filled : ℕ
  pub empty : ℕ
  pub begin : ℕ
  pub len : ℕ
  pub buf : Bytes

-- One end: whether the other end is there, and whether the buffer that it writes is (`a`).
pub record End : Type 0 where
  pub other : Bool
  pub writes : Bool

-- A new buffer; `bytes` is what `malloc` gave.
unfoldable pub buf_new : Bytes → Buf
buf_new bytes = record { filled = 0; empty = buf_len; begin = 0; len = 0; buf = bytes }

-- `semwait(s, n)`, `none` where the caller parks.
abbrev pub semwait : ℕ → ℕ → Option ℕ
semwait s n = if leb n s then some (s - n) else none

-- `semwait(s, n - 1)` after a wait for one, which gives the one back where `n` is 0.
abbrev pub semwait_rest : ℕ → ℕ → Option ℕ
semwait_rest s n = if leb n (s + 1) then some (s + 1 - n) else none

-- `memcpy` of bytes into a buffer from a position on.
unfoldable pub blit : Bytes → ℕ → Bytes → Bytes
blit buf i [] = buf
blit buf i (x ∷ xs) = blit (set buf i x) (i + 1) xs

-- `memcpy` out of a buffer: `n` bytes from a position on.
abbrev pub slice : Bytes → ℕ → ℕ → Bytes
slice buf i n = tabulate n (λ j. get_or buf (i + j) 0)

-- The bytes read and the buffer after it.
unfoldable pub read_bytes : ℕ → Buf → Bytes × Buf
read_bytes len b =
    let endlen = min (b.begin + len) buf_len - b.begin in
    (
      slice b.buf b.begin endlen ++ slice b.buf 0 (len - endlen),
      record b { len = b.len - len; begin = (b.begin + len) % buf_len; empty = b.empty + len },
    )

-- `fn` of MSREAD, `none` where the reader parks; it returns the number of bytes.
unfoldable pub pipe_read : End → ℕ → Buf → Option (Bytes × Buf)
pipe_read p len b = do
  filled ← semwait b.filled 1
  let n = min len b.len
  if not p.other
      then some ([], record b { filled = filled })
      else (do filled' ← semwait_rest filled n; some (read_bytes n (record b { filled = filled' })))

-- The part of a round of the write loop inside the lock: `clen` bytes go behind the others.
unfoldable pub write_bytes : Bytes → Buf → Buf
write_bytes xs b =
    let clen = length xs in
    let tail = (b.begin + b.len) % buf_len in
    let endlen = min (tail + clen) buf_len - tail in
    record b {
      buf = blit (blit b.buf tail (take endlen xs)) 0 (drop endlen xs);
      len = b.len + clen;
      filled = b.filled + clen;
    }

-- How a write ends: it returns a number of bytes, or parks with some bytes left to write.
pub data Written : Type 0 where
  returned : ℕ → Buf → Written
  blocked : Bytes → Buf → Written
  out_of_fuel : Written

-- The loop, with the bytes from `buf` on, `len` and `clen` as they stand at its test.
unfoldable pub write_loop : ℕ → End → ℕ → ℕ → Bytes → Buf → Written
write_loop zero p len clen xs a = out_of_fuel
write_loop (suc k) p len clen xs a =
    if len == 0 then returned clen a else elim (semwait a.empty 1) [
      | none ↦ blocked xs a
      | some empty ↦
          let len' = len - clen in
          let n = min len' (buf_len - a.len) in
          if not p.other
          then returned 0 (record a { empty = empty })
          else elim (semwait_rest empty n) [
            | none ↦ blocked xs (record a { empty = empty })
            | some empty' ↦
                write_loop k p len' n (drop n xs)
                  (write_bytes (take n xs) (record a { empty = empty' }))
          ]
    ]

-- `fn` of MSWRITE. Three rounds are enough: the first fills the buffer or writes all, the second parks
-- or writes nothing, the third is the test that ends the loop.
unfoldable pub pipe_write : End → Bytes → Buf → Written
pipe_write p xs a = if not p.writes then returned 0 a else write_loop 3 p (length xs) 0 xs a

-- The pipe: its two ends and the two buffers. The first end writes `a` and reads `b`, the second the
-- other way round.
pub record Pipe : Type 0 where
  pub first : Option End
  pub second : Option End
  pub a : Option Buf
  pub b : Option Buf

unfoldable pub pipe_new : Bytes → Bytes → Pipe
unfolding buf_new
pipe_new m n = record {
  first = some (record { other = true; writes = true });
  second = some (record { other = true; writes = true });
  a = some (buf_new m);
  b = some (buf_new n);
}

-- `del` of the first end: the other end loses it and the buffer it wrote, which is freed.
unfoldable pub del_first : Pipe → Pipe
del_first p = record p {
  first = none;
  second = (elim p.second [
    | none ↦ none
    | some e ↦ some (record { other = false; writes = false })
  ]);
  b = none;
}

-- `del` of the second end, in the same way.
unfoldable pub del_second : Pipe → Pipe
del_second p = record p {
  second = none;
  first = (elim p.first [ none ↦ none | some e ↦ some (record { other = false; writes = false }) ]);
  a = none;
}

-- `fn` of MSTAT, a FIFO of mode 0600 that holds the bytes to read, and of MOPEN.
unfoldable pub pipe_stat : ℕ → Option Buf → ℕ → Bytes
pipe_stat ino b len =
    let st : Stat = record {
      ino = ino;
      mode = 6 * 2 ^ 28 + 384;
      size = (elim b [ none ↦ 0 | some c ↦ c.len ]);
      atime = 0;
      mtime = 0;
      uid = 0;
      gid = 0;
    } in
    stat_to_msg st len

unfoldable pub pipe_open : ℕ → ℤ
pipe_open submsg = if has_bit submsg o_excl || has_bit submsg o_trunc then neg eacces else pos 0
