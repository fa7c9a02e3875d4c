-- ===== src/Kernel/Mnt/Client.antt =====
-- src/fs/mnt.c: every message to the server's connection, and the messages that a client sends when it
-- is copied and when it is deleted.
use yax.Base.{ℕ, ◌%◌, ◌^◌, Option, none, some, [], ◌==◌, if◌then◌else◌}
use yax.Base.Int.{ℤ, pos, neg}
use yax.Codes.{enosys, m_del, m_dup, m_open, m_sread, m_stat, m_swrite}
use yax.Codas.Bit.{Bytes}
use yax.Libc.Stat.{statmsgsiz}
use yax.Kernel.Mnt.{
  Msg, Server, cfn_msg, sendmsg, parks, gave, sfn_sread, sfn_swrite, sfn_stat, sfn_open,
}

-- What a message to the server's end leaves: the server, the bytes for the caller, the result, and the
-- client's message that is done.
pub record ServerAnswer : Type 0 where
  pub server : Server
  pub out : Bytes
  pub result : ℤ
  pub finished : Option Msg

abbrev answers : Server → ℤ → Bytes → ServerAnswer
answers s r out = record { server = s; out = out; result = r; finished = none }

-- How a message goes on: with an answer, or with a caller that parks.
pub data Sfn : Type 0 where
  answered : ServerAnswer → Sfn
  parked : Server → Sfn

-- `sfn`; the buffer of a write holds `len` bytes.
unfoldable pub sfn : ℕ → ℕ → Server → ℕ → ℕ → Bytes → ℕ → Sfn
sfn addr addr2 s fn submsg buf len =
    if fn == m_sread
    then elim (sfn_sread addr addr2 s len) [
      | parks s' ↦ parked s'
      | gave x ↦ answered (answers x.server (pos x.result) x.out)
    ]
    else if fn == m_swrite
    then (let y = sfn_swrite s buf in
        answered (record (answers y.server y.result []) { finished = y.finished }))
    else if fn == m_stat
    then answered (answers s (pos statmsgsiz) (sfn_stat len))
    else if fn == m_open
    then answered (answers s (sfn_open submsg) [])
    else answered (answers s (neg enosys) [])

-- A client, less its connection and the server it belongs to.
pub record Client : Type 0 where
  pub fid : ℕ
  pub msg : Msg

abbrev no_msg : Msg
no_msg = record {
  fn = 0;
  submsg = 0;
  fid = 0;
  buf = 0;
  len = 0;
  buf2 = 0;
  len2 = 0;
  off = 0;
  ret = 0;
}

-- `cfn` up to the wait for the answer: the client keeps the message, and the server gets it.
unfoldable pub cfn : Server → Client → ℕ → ℕ → ℕ → ℕ → ℕ → Option (Server × Client)
cfn s c mesg sub len len2 off =
    let m = cfn_msg c.msg c.fid mesg sub len len2 off in
    elim (sendmsg s m) [ none ↦ none | some s' ↦ some (s', record c { msg = m }) ]

-- `cdel` and `cdup`, up to the wait for the answer.
unfoldable pub cdel : Server → Client → Option (Server × Client)
unfolding cfn
cdel s c = cfn s c m_del 0 0 0 0

unfoldable pub cdup : Server → Client → Option (Server × Client)
unfolding cfn
cdup s c = cfn s c m_dup 0 0 0 0

-- The client that `cdup` makes of the answer, which is its fid, an error as well.
unfoldable pub cdup_client : ℕ → Client
cdup_client ret = record { fid = ret % 2 ^ 32; msg = no_msg }
