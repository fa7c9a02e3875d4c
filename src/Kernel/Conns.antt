-- ===== src/Kernel/Conns.antt =====
-- src/fs/conn.c: a connection's start, and the calls that go through it to its device.
-- The device's function is an argument; the buffers are the bytes in them. The file defines NDEBUG,
-- so the calls that would print are empty macros.
use yax.Base.{ℕ, ◌^◌, ◌<◌, ◌≡◌, true, false, [], ◌==◌, arith, ◌∙◌, ap, append-nil, sym}
use yax.Base.Int.{ℤ, pos, negsuc}
use yax.Codes.{m_walk}
use yax.Codas.Bit.{Bytes, gbit64, pbit64, gbit64-pbit64}
use yax.Kernel.Mount.{Conn}

unfoldable pub conninit : Bytes → ℕ → ℕ → ℕ → Conn
conninit name ino dev inst = record { dev = dev; inst = inst; name = name; ino = ino }

-- The arguments of a call.
pub record Call : Type 0 where
  pub f : ℕ
  pub sf : ℕ
  pub buf : Bytes
  pub len : ℕ
  pub buf2 : Bytes
  pub len2 : ℕ
  pub off : ℕ

-- What the device gives: its result, and the bytes at `buf` and `buf2`.
pub record DevReply : Type 0 where
  pub result : ℤ
  pub out : Bytes
  pub out2 : Bytes

pub record ConnResult : Type 0 where
  pub reply : DevReply
  pub conn : Conn

-- A walk has a buffer of its own for the inode, which the connection then has.
unfoldable pub connfuncpp : (Conn → Call → DevReply) → Conn → Call → ConnResult
connfuncpp dev conn c = elim (c.f == m_walk) [
  | false ↦ record { reply = dev conn c; conn = conn }
  | true ↦
      let r = dev conn (record c { buf2 = []; len2 = 8 }) in
      elim (r.result) [
        | pos n ↦ record { reply = r; conn = record conn { ino = gbit64 r.out2 } }
        | negsuc n ↦ record { reply = r; conn = conn }
      ]
]

unfoldable pub connfunc : (Conn → Call → DevReply) → Conn → ℕ → ℕ → Bytes → ℕ → ℕ → ConnResult
unfolding connfuncpp
connfunc dev conn f sf buf len off =
    connfuncpp dev conn
      (record { f = f; sf = sf; buf = buf; len = len; buf2 = []; len2 = 0; off = off })

-- After a walk that goes well, the connection has the inode that the device wrote.
connfuncpp-ino :
    (dev : Conn → Call → DevReply) (conn : Conn) (c : Call) (n ino : ℕ) (r : Bytes)
    → c.f ≡ m_walk
    → ino < 2 ^ 64
    → dev conn (record c { buf2 = []; len2 = 8 })
      ≡ record { result = pos n; out = r; out2 = pbit64 ino }
    → (connfuncpp dev conn c).conn ≡ record conn { ino = ino }
unfolding connfuncpp
connfuncpp-ino dev conn c n ino r e b d =
    let walk : (c.f == m_walk) ≡ true = ground arith in
    let word : gbit64 (pbit64 ino) ≡ ino =
      ap gbit64 (sym (append-nil (pbit64 ino))) ∙ gbit64-pbit64 ino [] ∙ omega arith in
    rw (connfuncpp, walk)
      (rw d (
        ap (λ (t : DevReply). record conn { ino = gbit64 t.out2 }) d
        ∙ ap (λ n. record conn { ino = n }) word))
