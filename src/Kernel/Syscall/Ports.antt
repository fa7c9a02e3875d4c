-- ===== src/Kernel/Syscall/Ports.antt =====
-- src/syscall.c: the bitmap of a process's ports, `sys_ioperm`. A set bit forbids a port.
use yax.Base.{
  ℕ, zero, suc, ◌+◌, ◌-◌, ◌/◌, ◌%◌, ◌^◌, ◌<◌, ◌≤◌, ◌≡◌, refl, Bool, true, ◌&&◌, ◌||◌, ltb, leb,
  arith, ◌==◌, if◌then◌else◌, has_bit, inl, inr, ◌⊎◌, dec_lt,
}

-- The bytes from `bmstart` to `bmend`, each by its place behind the first one.
pub record Ports : Type 0 where
  pub bmstart : ℕ
  pub bmend : ℕ
  pub bm : ℕ → ℕ

-- The bitmap for more ports: `rest` are the bytes that the new room happens to hold.
unfoldable pub grow_ports : (ℕ → ℕ) → ℕ → ℕ → Ports → Ports
grow_ports rest start end s =
    let newstart = (if ltb (start / 8) s.bmstart then start / 8 else s.bmstart) in
    let newend = (if ltb s.bmend ((end + 7) / 8) then (end + 7) / 8 else s.bmend) in
    let shift = s.bmstart - newstart in
    record {
      bmstart = newstart;
      bmend = newend;
      bm = λ k.
          if ltb s.bmstart s.bmend
          then (if leb shift k && ltb k (shift + (s.bmend - s.bmstart))
              then s.bm (k - shift)
              else rest k)
          else if ltb k (newend - newstart)
          then 255
          else rest k;
    }

-- A bit of a byte is cleared or set.
abbrev pub put_bit : Bool → ℕ → ℕ → ℕ
put_bit on k b =
    if on then (if has_bit b k then b - 2 ^ k else b) else if has_bit b k then b else b + 2 ^ k

-- The place of a port's byte; it wraps below the first byte.
abbrev pub byte_of : ℕ → Ports → ℕ
byte_of i s = (i / 8 + 2 ^ 32 - s.bmstart) % 2 ^ 32

abbrev pub put_port : Bool → ℕ → Ports → Ports
put_port on i s = record s {
  bm = λ k. if k == byte_of i s then put_bit on (i % 8) (s.bm k) else s.bm k;
}

-- The ports from `i` on, `n` of them.
unfoldable pub put_ports : Bool → ℕ → ℕ → Ports → Ports
put_ports on zero i s = s
put_ports on (suc n) i s = put_ports on n (i + 1) (put_port on i s)

-- `start` and `end` are ports, and are compared with places of bytes.
unfoldable pub sys_ioperm : (ℕ → ℕ) → ℕ → ℕ → Bool → Ports → Ports
unfolding grow_ports put_ports
sys_ioperm rest start end on s =
    let s1 = (if ltb start s.bmstart || ltb s.bmend end then grow_ports rest start end s else s) in
    put_ports on (end + 1 - start) start s1

put_ports-range :
    (on : Bool) (n i : ℕ) (s : Ports)
    → ((put_ports on n i s).bmstart ≡ s.bmstart) × ((put_ports on n i s).bmend ≡ s.bmend)
unfolding put_ports
put_ports-range on zero i s = (refl, refl)
put_ports-range on (suc n) i s = put_ports-range on n (i + 1) (put_port on i s)

covers :
    (end i m : ℕ)
    → m ≡ (end + 7) / 8
    → i ≤ end
    → i / 8 < m ⊎ (end % 8 ≡ 0) × (i ≡ end) × (m ≡ i / 8)
covers end i m h e = elim (dec_lt (i / 8) m) [
  | yes p ↦ inl p
  | no p ↦ inr (omega arith, omega arith, omega arith)
]

-- For a process that has no ports yet, the bitmap has the bytes of all ports that are given to it, but
-- where the last port is a multiple of eight, whose byte is the first one behind the bitmap.
pub sys_ioperm-bounds :
    (rest : ℕ → ℕ) (start end i : ℕ) (on : Bool) (s : Ports)
    → s.bmstart ≡ 8191
    → s.bmend ≡ 0
    → end < 65536
    → start ≤ i
    → i ≤ end
    → let s' = sys_ioperm rest start end on s in
      (s'.bmstart ≤ i / 8) × (i / 8 < s'.bmend ⊎ (end % 8 ≡ 0) × (i ≡ end) × (s'.bmend ≡ i / 8))
unfolding sys_ioperm
sys_ioperm-bounds rest start end i on s a b c d e =
    let s1 = grow_ports rest start end s in
    let grown : (ltb start s.bmstart || ltb s.bmend end) ≡ true = ground arith in
    let (x, y) = put_ports-range on (end + 1 - start) start s1 in
    let low : s1.bmstart ≤ i / 8 = ground arith in
    let high : s1.bmend ≡ (end + 7) / 8 = ground arith in
    rw grown (rw x low, rw y (covers end i s1.bmend high e))
