-- ===== src/Yaxfs/Serve.antt =====
-- libyaxfs/serve.c: a server's side of the message protocol. Words and pointers are bit patterns.
use yax.Base.{ℕ, Option, none, some, not, ltb, length, take, ◌++◌, drop, if◌then◌else◌, has_bit}
use yax.Codes.{wants_off, wants_ptr, wants_ptr2}
use yax.Codas.Bit.{Bytes, gbit32, gbit64, pbit32, pbit64}

-- `Req`, as a message carries it.
pub record Request : Type 0 where
  pub fn : ℕ
  pub submsg : ℕ
  pub fid : ℕ
  pub buf : ℕ
  pub len : ℕ
  pub buf2 : ℕ
  pub len2 : ℕ
  pub off : ℕ

-- The variable and the pointer into the bytes, part by part.
unfoldable pub recv_head : Request → Bytes → Request × Bytes
recv_head m b = (
  record m { fn = gbit32 b; fid = gbit32 (drop 4 b); submsg = gbit32 (drop 4 (drop 4 b)) },
  drop 4 (drop 4 (drop 4 b)),
)

unfoldable pub recv_ptr : Request → Bytes → Request × Bytes
recv_ptr m b =
    if has_bit m.fn wants_ptr
    then (record m { len = gbit32 b; buf = gbit32 (drop 4 b) }, drop 4 (drop 4 b))
    else (m, b)

unfoldable pub recv_ptr2 : Request → Bytes → Request × Bytes
recv_ptr2 m b =
    if has_bit m.fn wants_ptr2
    then (record m { len2 = gbit32 b; buf2 = gbit32 (drop 4 b) }, drop 4 (drop 4 b))
    else (m, b)

-- The offset alone can lie behind the array: `none`.
unfoldable pub recv_off : Request → Bytes → Option Request
recv_off m b =
    if not (has_bit m.fn wants_off)
    then some m
    else if ltb (length b) 8
    then none
    else some (record m { off = gbit64 b })

-- The request in an array of `buf_size` bytes.
unfoldable pub decode : Request → Bytes → Option Request
decode m b =
    let (m0, b0) = recv_head m b in
    let (m1, b1) = recv_ptr m0 b0 in let (m2, b2) = recv_ptr2 m1 b1 in recv_off m2 b2

-- `char buf[28]`
abbrev pub buf_size : ℕ
buf_size = 28

-- The request in the bytes that the connection has to read, of which `read` takes no more than the
-- array has room for. `m` is the variable before, and the fields that the message does not carry keep
-- what it held; `buf` is the array before, of which the bytes that were not read stay.
unfoldable pub recv : Request → Bytes → Bytes → Option Request
unfolding decode
recv m buf b = let got = take buf_size b in decode m (got ++ drop (length got) buf)

-- The bytes that answer the request of a fid with a result.
unfoldable pub answer : ℕ → ℕ → Bytes
answer fid ret = pbit32 fid ++ pbit64 ret
