-- ===== src/Kernel/Iofs.antt =====
-- src/fs/iofs.c: the directory of the sixteen interrupt lines. A connection is on the directory or on a
-- line, and holds the line's number; `none` is a reader that parks until the next interrupt.
pub mod Names
mod Tests
use yax.Base.{
  ℕ, zero, suc, ◌+◌, ◌-◌, ◌*◌, ◌^◌, Bool, true, false, not, Option, none, some, List, [], ◌∷◌, ◌++◌,
  ◌&&◌, ◌||◌, get_or, set, length, ltb, leb, ◌==◌, if◌then◌else◌, has_bit,
}
use yax.Base.Int.{ℤ, pos, neg, negsuc}
use yax.Codes.{
  eacces, einval, eisdir, enoent, enosys, m_open, m_sread, m_stat, m_walk, o_excl, o_trunc,
  o_wronly,
}
use yax.Codas.Bit.{Bytes, pbit16, pbit32, pbit64}
use yax.Libc.Stat.{Stat, statmsgsiz, stat_to_msg}

pub record IoConn : Type 0 where
  pub n : ℕ
  pub on_line : Bool

unfoldable pub iofsnew : IoConn
iofsnew = record { n = 0; on_line = false }

-- `dup` copies the whole structure.
unfoldable pub iofsdup : IoConn → IoConn
iofsdup c = record { n = c.n; on_line = c.on_line }

-- The handler of an interrupt: the line's semaphore, which nobody waits for, counts it.
unfoldable pub iofsinterrupt : ℕ → List ℕ → List ℕ
iofsinterrupt n irqsem = set irqsem n (get_or irqsem n 0 + 1)

-- What a message leaves: the result, the bytes in the two buffers and the connection.
pub record Answer : Type 0 where
  pub result : ℤ
  pub out : Bytes
  pub out2 : Bytes
  pub conn : IoConn

abbrev stat_of : ℕ → ℕ → Stat
stat_of ino mode = record {
  ino = ino;
  mode = mode;
  size = 0;
  atime = 0;
  mtime = 0;
  uid = 0;
  gid = 0;
}

-- The attributes of a line, `S_IFIFO | 0400`, and of the directory, `S_IFDIR | 0555`.
abbrev pub line_stat : ℕ → Stat
line_stat i = stat_of (1 + i) (6 * 2 ^ 28 + 256)

abbrev pub dir_stat : Stat
dir_stat = stat_of 0 (2 ^ 31 + 365)

-- The character that names a line.
abbrev pub line_name : ℕ → ℕ
line_name i = if ltb i 10 then 48 + i else 87 + i

-- One entry of the directory, `none` if it does not fit.
unfoldable pub dirpreadelem : ℕ → Stat → Bytes → Option Bytes
dirpreadelem len st name =
    let clen = 2 + statmsgsiz + 2 + length name in
    if ltb len clen
    then none
    else some (pbit16 clen ++ (stat_to_msg st len ++ (pbit16 (length name) ++ name)))

-- The loop of a read, with the lines left.
unfoldable pub dread : ℕ → ℕ → ℕ → Bytes
dread zero i len = []
dread (suc k) i len = elim (dirpreadelem len (line_stat i) (line_name i ∷ [])) [
  | none ↦ []
  | some entry ↦ entry ++ dread k (i + 1) (len - length entry)
]

-- The line that a path names.
unfoldable pub line_of : Bytes → Option ℕ
line_of [] = none
line_of (c ∷ p) =
    if leb 48 c && leb c 57
    then some (c - 48)
    else if leb 97 c && leb c 102
    then some (c + 10 - 97)
    else none

abbrev pub returns : IoConn → ℤ → Answer
returns c r = record { result = r; out = []; out2 = []; conn = c }

unfoldable pub dwalk : IoConn → Bytes → ℕ → Answer
dwalk c path len2 =
    if not (length path == 1)
    then returns c (neg enoent)
    else if not (len2 == 8)
    then returns c (neg einval)
    else elim (line_of path) [
      | none ↦ returns c (neg enoent)
      | some n ↦ record {
        result = pos 0;
        out = [];
        out2 = pbit64 (1 + n);
        conn = record { n = n; on_line = true };
      }
    ]

-- A message to the directory: its number, submessage, the bytes in the buffer and the two lengths.
unfoldable pub dfn : IoConn → ℕ → ℕ → Bytes → ℕ → ℕ → Answer
dfn c fn submsg buf len len2 =
    if fn == m_sread
    then (let b = dread (16 - c.n) c.n len in
        record { result = pos (length b); out = b; out2 = []; conn = c })
    else if fn == m_stat
    then (if ltb len statmsgsiz then returns c (neg einval) else record {
      result = pos statmsgsiz;
      out = stat_to_msg dir_stat len;
      out2 = [];
      conn = c;
    })
    else if fn == m_walk
    then dwalk c buf len2
    else if fn == m_open
    then (if has_bit submsg o_excl || has_bit submsg o_wronly
        then returns c (neg eisdir)
        else returns c (pos 0))
    else returns c (neg enosys)

-- A read of a line, for which `units` interrupts have come that nobody has waited for, and the units
-- left.
unfoldable pub iread : IoConn → ℕ → ℕ → Option (Answer × ℕ)
iread c len units =
    if ltb len 4
    then some (returns c (negsuc 0), units)
    else if units == 0
    then none
    else some (record { result = pos 4; out = pbit32 1; out2 = []; conn = c }, units - 1)

-- A message to a line.
unfoldable pub ifn : IoConn → ℕ → ℕ → ℕ → ℕ → Option (Answer × ℕ)
ifn c fn submsg len units =
    if fn == m_sread
    then iread c len units
    else if fn == m_stat
    then some (
      record {
        result = pos statmsgsiz;
        out = stat_to_msg (line_stat c.n) len;
        out2 = [];
        conn = c;
      },
      units,
    )
    else if fn == m_open
    then (if has_bit submsg o_excl || (has_bit submsg o_trunc || has_bit submsg o_wronly)
        then some (returns c (neg eacces), units)
        else some (returns c (pos 0), units))
    else some (returns c (neg enosys), units)
