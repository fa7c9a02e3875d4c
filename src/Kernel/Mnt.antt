-- ===== src/Kernel/Mnt.antt =====
-- src/fs/mnt.c: system calls on a mounted connection as messages to a user-space server. `ready` and
-- `hasmsg` are the values of the semaphores while nobody waits, and `none` and `parks` are a caller
-- that parks on one. The addresses at which the caller's buffers are mapped for the server come from
-- `putusrptr`, and are arguments.
pub mod Protocol
pub mod Calls
pub mod Client
mod Copies
mod Tests
use yax.Base.{
  ◌*◌, ℕ, zero, suc, ◌+◌, ◌-◌, ◌/◌, ◌%◌, ◌^◌, ◌≡◌, Bool, true, false, Option, none, some, List, [],
  ◌∷◌, ◌++◌, ◌&&◌, ◌||◌, drop, length, leb, ◌==◌, if◌then◌else◌, has_bit,
}
use yax.Base.Int.{ℤ, pos, neg}
use yax.Codes.{eacces, einval, o_excl, o_trunc, wants_off, wants_ptr, wants_ptr2}
use yax.Libc.Stat.{Stat, stat_to_msg}
use yax.Codas.Bit.{Bytes, gbit32, gbit64, pbit32, pbit64}

-- `Msg`, less its link and its semaphore.
pub record Msg : Type 0 where
  pub fn : ℕ
  pub submsg : ℕ
  pub fid : ℕ
  pub buf : ℕ
  pub len : ℕ
  pub buf2 : ℕ
  pub len2 : ℕ
  pub off : ℕ
  pub ret : ℕ

pub record Server : Type 0 where
  pub ready : ℕ
  pub hasmsg : ℕ
  pub read : ℕ
  pub msg : Msg
  pub msgs : List Msg

-- `mntnew`, the server's part; `msg` is not initialised.
unfoldable pub mnt_new : Msg → Server
mnt_new m = record { ready = 0; hasmsg = 0; read = 0; msg = m; msgs = [] }

-- The message that `cfn` fills in, over the client's former one.
unfoldable pub cfn_msg : Msg → ℕ → ℕ → ℕ → ℕ → ℕ → ℕ → Msg
cfn_msg m fid mesg sub len len2 off = record m {
  fid = fid;
  fn = mesg;
  submsg = sub;
  off = (if has_bit mesg wants_off then off else 0);
  buf = (if has_bit mesg wants_ptr then m.buf else 0);
  len = (if has_bit mesg wants_ptr then len else 0);
  buf2 = (if has_bit mesg wants_ptr2 then m.buf2 else 0);
  len2 = (if has_bit mesg wants_ptr2 then len2 else 0);
}

-- `sendmsg`, up to its wait for the answer.
unfoldable pub sendmsg : Server → Msg → Option Server
sendmsg s m =
    if s.ready == 0
    then none
    else some (record s { ready = s.ready - 1; msg = m; hasmsg = s.hasmsg + 1 })

-- A read in progress: the server's counter, the bytes left in the buffer, those written, the message.
pub record Reading : Type 0 where
  pub read : ℕ
  pub len : ℕ
  pub out : Bytes
  pub msg : Msg

-- `if(s->read == msgpos && len >= need) { PBIT…; buf += w, len -= w; s->read += w; }`
unfoldable pub emit : ℕ → ℕ → Bytes → Reading → Reading
emit msgpos need bytes o =
    if (o.read == msgpos) && leb need o.len
    then record o {
      read = o.read + length bytes;
      len = (o.len + 2 ^ 32 - length bytes) % 2 ^ 32;
      out = o.out ++ bytes;
    }
    else o

-- The address of a mapped buffer goes into the message as it is sent.
unfoldable pub emit_buf : ℕ → ℕ → Reading → Reading
unfolding emit
emit_buf msgpos addr o =
    let o' = emit msgpos 4 (pbit32 addr) o in
    if (o.read == msgpos) && leb 4 o.len
    then record o' { msg = record (o.msg) { buf = addr } }
    else o'

unfoldable pub emit_buf2 : ℕ → ℕ → Reading → Reading
unfolding emit
emit_buf2 msgpos addr o =
    let o' = emit msgpos 4 (pbit32 addr) o in
    if (o.read == msgpos) && leb 4 o.len
    then record o' { msg = record (o.msg) { buf2 = addr } }
    else o'

-- The words that every message has. The third asks for one byte of room and writes four.
unfoldable pub emit_head : Reading → Reading
unfolding emit
emit_head o =
    emit 8 1 (pbit32 (o.msg.submsg))
      (emit 4 4 (pbit32 (o.msg.fid)) (emit 0 4 (pbit32 (o.msg.fn)) o))

-- The optional parts: what is read, and the length of the message so far.
unfoldable pub emit_ptr : ℕ → Reading → ℕ → Reading × ℕ
unfolding emit_buf
emit_ptr addr o msgpos =
    if has_bit (o.msg.fn) wants_ptr
    then (emit_buf (msgpos + 4) addr (emit msgpos 4 (pbit32 (o.msg.len)) o), msgpos + 8)
    else (o, msgpos)

unfoldable pub emit_ptr2 : ℕ → Reading → ℕ → Reading × ℕ
unfolding emit_buf2
emit_ptr2 addr o msgpos =
    if has_bit (o.msg.fn) wants_ptr2
    then (emit_buf2 (msgpos + 4) addr (emit msgpos 4 (pbit32 (o.msg.len2)) o), msgpos + 8)
    else (o, msgpos)

unfoldable pub emit_off : Reading → ℕ → Reading × ℕ
unfolding emit
emit_off o msgpos =
    if has_bit (o.msg.fn) wants_off
    then (emit msgpos 8 (pbit64 (o.msg.off)) o, msgpos + 8)
    else (o, msgpos)

-- What a read leaves: the server, the bytes in the reader's buffer, and the value returned.
pub record Sread : Type 0 where
  pub server : Server
  pub out : Bytes
  pub result : ℕ

unfoldable pub finish : Server → Reading → ℕ → Sread
finish s o msgpos =
    if o.read == msgpos
    then record {
      server = record s { read = 0; msg = o.msg; msgs = o.msg ∷ s.msgs };
      out = o.out;
      result = msgpos;
    }
    else record {
      server = record s { read = o.read; msg = o.msg };
      out = o.out;
      result = (if o.read == 0 then msgpos else o.read);
    }

unfoldable pub serialize : ℕ → ℕ → Server → ℕ → Sread
serialize addr addr2 s len =
    let o0 : Reading = record { read = s.read; len = len; out = []; msg = s.msg } in
    let (o1, p1) = emit_ptr addr (emit_head o0) 12 in
    let (o2, p2) = emit_ptr2 addr2 o1 p1 in let (o3, p3) = emit_off o2 p2 in finish s o3 p3

-- What a read comes to: it gives bytes, or parks, with the server as the wait leaves it.
pub data Sreads : Type 0 where
  gave : Sread → Sreads
  parks : Server → Sreads

-- The rest of a read from its wait for a message on; `none` goes on waiting.
unfoldable pub sread_on : ℕ → ℕ → Server → ℕ → Option Sread
sread_on addr addr2 s len =
    if s.hasmsg == 0
    then none
    else some (serialize addr addr2 (record s { hasmsg = s.hasmsg - 1 }) len)

-- `sfn` of MSREAD: at the start of a message, announce that the server is ready and wait for one.
unfoldable pub sfn_sread : ℕ → ℕ → Server → ℕ → Sreads
unfolding sread_on
sfn_sread addr addr2 s len =
    let s1 = record s { ready = s.ready + 1 } in
    if s.read == 0
    then elim (sread_on addr addr2 s1 len) [ none ↦ parks s1 | some x ↦ gave x ]
    else gave (serialize addr addr2 s len)

-- The first message with the fid, and the list without it.
unfoldable pub take_msg : ℕ → List Msg → Option (Msg × List Msg)
take_msg fid [] = none
take_msg fid (m ∷ ms) =
    let rest = take_msg fid ms in
    if m.fid == fid
    then some (m, ms)
    else elim rest [ none ↦ none | some (n, ns) ↦ some (n, m ∷ ns) ]

-- What a write leaves: the server, the message that is done, the mappings taken down, and the result.
pub record Swrite : Type 0 where
  pub server : Server
  pub finished : Option Msg
  pub unmapped : List ℕ
  pub result : ℤ

unfoldable pub sfn_swrite : Server → Bytes → Swrite
sfn_swrite s b =
    let bad : Swrite = record { server = s; finished = none; unmapped = []; result = neg einval } in
    if length b == 12
    then elim (take_msg (gbit32 b) s.msgs) [
      | none ↦ bad
      | some (m, ms) ↦ record {
        server = record s { msgs = ms };
        finished = some (record m { ret = gbit64 (drop 4 b) });
        unmapped =
            (if has_bit m.fn wants_ptr then m.buf ∷ [] else [])
            ++ (if has_bit m.fn wants_ptr2 then m.buf2 ∷ [] else []);
        result = pos (length b);
      }
    ]
    else bad

-- `sfn` of MSTAT, a FIFO of mode 0600, and of MOPEN.
unfoldable pub sfn_stat : ℕ → Bytes
sfn_stat len =
    let st : Stat = record {
      ino = 0;
      mode = 6 * 2 ^ 28 + 384;
      size = 0;
      atime = 0;
      mtime = 0;
      uid = 0;
      gid = 0;
    } in
    stat_to_msg st len

unfoldable pub sfn_open : ℕ → ℤ
sfn_open submsg = if has_bit submsg o_excl || has_bit submsg o_trunc then neg eacces else pos 0
