-- ===== src/Kernel/Mnt/Copies.antt =====
-- The copy of a client, through both ends.
use yax.Base.{length, ℕ, ◌^◌, ◌<◌, ◌≡◌, refl, some, arith}
use yax.Codas.Bit.{Bytes}
use yax.Codes.{m_dup}
use yax.Yaxfs.Serve.{buf_size, Request, recv}
use yax.Kernel.Mnt.{Msg, Server, Sread, cfn_msg, parks, sread_on, sfn_sread}
use yax.Kernel.Mnt.Protocol.{IsWords}
use yax.Kernel.Mnt.Calls.{Completed, sendmsg-answer}
use yax.Kernel.Mnt.Client.{Client, cfn, cdup, cdup_client}

-- The message of a copy, of which a server that waits reads twelve bytes.
abbrev copy_msg : Client → Msg
copy_msg c = cfn_msg c.msg c.fid m_dup 0 0 0 0

-- A copy of a client, from a server that has parked in a read: the server goes on with a request to copy
-- the client's fid, without a buffer, and the new client has the fid that the server answers.
pub cdup-answer :
    (s : Server) (c : Client) (q : Request) (buf : Bytes) (ret : ℕ)
    → s.hasmsg ≡ 0
    → s.read ≡ 0
    → c.fid < 2 ^ 32
    → length buf ≡ buf_size
    → ret < 2 ^ 32
    → (s1 : Server) × (s2 : Server) × (x : Sread) × (sfn_sread 0 0 s buf_size ≡ parks s1)
      × (cdup s1 c ≡ some (s2, record c { msg = copy_msg c }))
      × (sread_on 0 0 s2 buf_size ≡ some x)
      × (recv q buf x.out ≡ some (record q { fn = m_dup; submsg = 0; fid = c.fid }))
      × Completed s (copy_msg c) 0 0 ret x c.fid
      × ((cdup_client ret).fid ≡ ret)
unfolding cdup cfn cfn_msg cdup_client
cdup-answer s c q buf ret g z f l h =
    let words : IsWords (copy_msg c) = record {
      fn = omega arith;
      submsg = omega arith;
      fid = f;
      len = omega arith;
      len2 = omega arith;
      off = omega arith;
    } in
    let (s1, s2, x, parked, sent, read, got, done, ready, hasmsg) =
      sendmsg-answer s (copy_msg c) q buf 0 0 ret g z words (omega arith) (omega arith)
        (omega arith) l (omega arith) in
    (s1, s2, x, parked, rw (cdup, cfn, sent) refl, read, got, done, omega arith)
