-- ===== src/Kernel/Mnt/Tests.antt =====
-- The message protocol at concrete messages.
use yax.Base.{replicate, ◌≡◌, refl, some, [], ◌∷◌, arith}
use yax.Codas.Bit.{Bytes}
use yax.Codes.{m_pread}
use yax.Kernel.Mnt.{Msg, Server, Sread, sendmsg, parks, sread_on, sfn_sread, serialize}
use yax.Kernel.Mnt.Protocol.{IsWords, wire, received, mapped, recv-wire, serialize-wire}
use yax.Kernel.Mnt.Calls.{Completed, sendmsg-answer}
use yax.Yaxfs.Serve.{Request, recv}

abbrev pread_msg : Msg
pread_msg = record {
  fn = m_pread;
  submsg = 0;
  fid = 7;
  buf = 0;
  len = 512;
  buf2 = 0;
  len2 = 0;
  off = 4096;
  ret = 0;
}

abbrev old_request : Request
old_request = record { fn = 0; submsg = 0; fid = 0; buf = 0; len = 0; buf2 = 3; len2 = 4; off = 0 }

abbrev server : Server
server = record { ready = 0; hasmsg = 0; read = 0; msg = pread_msg; msgs = [] }

pread_msg-IsWords : IsWords pread_msg
pread_msg-IsWords = record {
  fn = omega arith;
  submsg = omega arith;
  fid = omega arith;
  len = omega arith;
  len2 = omega arith;
  off = omega arith;
}

abbrev array : Bytes
array = replicate 28 255

recv-wire_example :
    recv old_request array (wire 8192 0 pread_msg) ≡ some (received old_request 8192 0 pread_msg)
recv-wire_example =
    recv-wire old_request array 8192 0 pread_msg pread_msg-IsWords (omega arith) (omega arith) refl

serialize-wire_example :
    let x = serialize 8192 0 server 4096 in
    (x.out ≡ wire 8192 0 pread_msg)
    × (x.server.read ≡ 0)
    × (x.server.msgs ≡ mapped 8192 0 pread_msg ∷ [])
serialize-wire_example = serialize-wire 8192 0 4096 server refl (omega arith) (omega arith)

sendmsg-answer_example :
    (s1 : Server) × (s2 : Server) × (x : Sread) × (sfn_sread 8192 0 server 28 ≡ parks s1)
    × (sendmsg s1 pread_msg ≡ some s2)
    × (sread_on 8192 0 s2 28 ≡ some x)
    × (recv old_request array x.out ≡ some (received old_request 8192 0 pread_msg))
    × Completed server pread_msg 8192 0 512 x 7
    × (x.server.ready ≡ 0)
    × (x.server.hasmsg ≡ 0)
sendmsg-answer_example =
    sendmsg-answer server pread_msg old_request array 8192 0 512 refl refl pread_msg-IsWords
      (omega arith) (omega arith) (omega arith) refl (omega arith)
