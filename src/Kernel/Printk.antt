-- ===== src/Kernel/Printk.antt =====
-- src/printk.c: the printing of numbers, as the bytes that go to the serial line. The `int` that
-- `xprintk` takes is its bit pattern; that of `iprintk` is not the least one.
pub mod Parse
mod Tests
use yax.Base.{
  ℕ, zero, suc, ◌+◌, ◌-◌, ◌*◌, ◌/◌, ◌%◌, ◌^◌, Bool, List, [], ◌∷◌, ◌++◌, ◌&&◌, ◌||◌, ltb, leb, ◌==◌,
  if◌then◌else◌,
}
use yax.Base.Int.{ℤ, pos, negsuc}
use yax.Codas.Bit.{Bytes}

-- A digit, above 9 an upper-case letter.
abbrev pub digit_char : ℕ → ℕ
digit_char d = if ltb d 10 then 48 + d else 55 + d

-- A byte as it is printed; the low digit comes first.
unfoldable pub pcprintk : ℕ → Bytes
pcprintk c =
    if (leb 32 c && ltb c 127) || ((c == 10) || (c == 9))
    then c ∷ []
    else 92 ∷ 120 ∷ digit_char (c % 16) ∷ digit_char (c / 16) ∷ []

unfoldable pub nprintk : Bytes → Bytes
unfolding pcprintk
nprintk [] = []
nprintk (c ∷ s) = pcprintk c ++ nprintk s

-- `printk`, of a string without its terminator.
unfoldable pub printk : Bytes → Bytes
unfolding nprintk
printk s = nprintk s

-- The loop that fills `num` from its end: the digits in front of those there, with the room left.
unfoldable pub fill : ℕ → ℕ → ℕ → Bytes → Bytes
fill zero base n num = num
fill (suc room) base n num =
    let num' = digit_char (n % base) ∷ num in
    let rest = fill room base (n / base) num' in if n / base == 0 then num' else rest

unfoldable pub uiprintk : ℕ → Bytes
unfolding nprintk fill
uiprintk n = nprintk (fill 16 10 n [])

unfoldable pub uxprintk : ℕ → Bytes
unfolding nprintk fill
uxprintk n = nprintk (fill 16 16 n [])

unfoldable pub ubprintk : ℕ → Bytes
unfolding nprintk fill
ubprintk n = nprintk (fill 32 2 n [])

unfoldable pub iprintk : ℤ → Bytes
unfolding nprintk fill
iprintk (pos n) = nprintk (fill 16 10 n [])
iprintk (negsuc n) = nprintk (45 ∷ fill 16 10 (suc n) [])

-- `n >>= 4` on an `int`, which keeps the sign.
abbrev pub shift_right : ℕ → ℕ
shift_right n = n / 16 + (if ltb n (2 ^ 31) then 0 else 15 * 2 ^ 28)

unfoldable pub fill_hex : ℕ → ℕ → Bytes → Bytes
fill_hex zero n num = num
fill_hex (suc room) n num =
    let num' = digit_char (n % 16) ∷ num in
    let rest = fill_hex room (shift_right n) num' in if shift_right n == 0 then num' else rest

unfoldable pub xprintk : ℕ → Bytes
unfolding nprintk fill_hex
xprintk n = nprintk (fill_hex 16 n [])
