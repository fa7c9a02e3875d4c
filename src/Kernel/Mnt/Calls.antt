-- ===== src/Kernel/Mnt/Calls.antt =====
-- One call through both ends: src/fs/mnt.c in the kernel and libyaxfs/serve.c in the server.
use yax.Base.{
  length, leb, ℕ, ◌+◌, ◌-◌, ◌^◌, ◌<◌, ◌≤◌, ◌≡◌, refl, some, [], ◌∷◌, ◌++◌, arith, ap, ◌∙◌,
  if◌then◌else◌, has_bit, false, true, Bool, ap₂,
}
use yax.Codas.Bit.{Bytes}
use yax.Codes.{wants_ptr, wants_ptr2}
use yax.Yaxfs.Serve.{buf_size, Request, recv, answer}
use yax.Kernel.Mnt.{
  Msg, Server, Sread, sendmsg, finish, sread_on, parks, sfn_sread, sfn_swrite, serialize,
}
use yax.Kernel.Mnt.Protocol.{
  IsWords, wire_length, mapped, received, recv-wire, serialize-wire, sfn_swrite-answer,
}

-- What the answer to a fid does: the message is done, with the result, and its buffers are taken down.
abbrev pub Completed : Server → Msg → ℕ → ℕ → ℕ → Sread → ℕ → Type 0
Completed s m addr addr2 ret x fid =
    let y = sfn_swrite x.server (answer fid ret) in
    (y.finished ≡ some (record (mapped addr addr2 m) { ret = ret }))
    × (y.server.msgs ≡ s.msgs)
    × (y.unmapped
        ≡ (if has_bit m.fn wants_ptr then addr ∷ [] else [])
          ++ (if has_bit m.fn wants_ptr2 then addr2 ∷ [] else []))

serialize-ready :
    (addr addr2 : ℕ) (s : Server) (len : ℕ) → (serialize addr addr2 s len).server.ready ≡ s.ready
unfolding serialize finish
serialize-ready addr addr2 s len = ground arith

serialize-hasmsg :
    (addr addr2 : ℕ) (s : Server) (len : ℕ) → (serialize addr addr2 s len).server.hasmsg ≡ s.hasmsg
unfolding serialize finish
serialize-hasmsg addr addr2 s len = ground arith

buffer_at :
    (b : Bool) (addr buf : ℕ)
    → (if b then (if b then addr else buf) ∷ [] else []) ≡ (if b then addr ∷ [] else [])
buffer_at true addr buf = refl
buffer_at false addr buf = refl

-- A server that reads and finds no message parks; a message that is then sent to it, and that fits the
-- array of `recv`, wakes the read, which goes on with all of it. `recv` makes the message itself of the
-- bytes, with the addresses at which its buffers are mapped, and the answer to the fid that `recv` read
-- completes the message with the result: the messages that were pending before are pending again, no
-- other, the buffers are taken down, and the semaphores have the values that they had.
pub sendmsg-answer :
    (s : Server) (m : Msg) (q : Request) (buf : Bytes) (addr addr2 ret : ℕ)
    → s.hasmsg ≡ 0
    → s.read ≡ 0
    → IsWords m
    → addr < 2 ^ 32
    → addr2 < 2 ^ 32
    → wire_length m ≤ buf_size
    → length buf ≡ buf_size
    → ret < 2 ^ 64
    → (s1 : Server) × (s2 : Server) × (x : Sread) × (sfn_sread addr addr2 s buf_size ≡ parks s1)
      × (sendmsg s1 m ≡ some s2)
      × (sread_on addr addr2 s2 buf_size ≡ some x)
      × (recv q buf x.out ≡ some (received q addr addr2 m))
      × Completed s m addr addr2 ret x (received q addr addr2 m).fid
      × (x.server.ready ≡ s.ready)
      × (x.server.hasmsg ≡ 0)
unfolding sendmsg sfn_sread sread_on
sendmsg-answer s m q buf addr addr2 ret g z w a b l k h =
    let s1 : Server = record s { ready = s.ready + 1 } in
    let s2 : Server = record s { ready = s.ready + 1 - 1; msg = m; hasmsg = s.hasmsg + 1 } in
    let s3 : Server = record s2 { hasmsg = s2.hasmsg - 1 } in
    let x : Sread = serialize addr addr2 s3 buf_size in
    let (out, read, msgs) = serialize-wire addr addr2 buf_size s3 z l (omega arith) in
    let fits : leb (wire_length m) buf_size ≡ true = ground arith in
    let got : recv q buf x.out ≡ some (received q addr addr2 m) =
      ap (recv q buf) out ∙ recv-wire q buf addr addr2 m w a b k ∙ (rw fits refl) in
    let done = sfn_swrite-answer x.server s.msgs (mapped addr addr2 m) ret msgs w.fid h in
    (
      s1,
      s2,
      x,
      ground arith,
      ground arith,
      ground arith,
      got,
      (
        done.0,
        ap (λ (t : Server). t.msgs) done.1,
        done.3
            ∙ ap₂ (λ c d. c ++ d) (buffer_at (has_bit m.fn wants_ptr) addr m.buf)
                (buffer_at (has_bit m.fn wants_ptr2) addr2 m.buf2),
      ),
      serialize-ready addr addr2 s3 buf_size ∙ omega arith,
      serialize-hasmsg addr addr2 s3 buf_size ∙ omega arith,
    )
