-- ===== src/Codas/Bit.antt =====
-- libcodas/include/codas/bit.h: little-endian words in byte buffers. A buffer is the list of bytes
-- from a pointer on; the callers read inside their buffers, and past the end a byte reads as 0. A
-- negative value is given by its bit pattern.
use yax.Base.{ℕ, ◌+◌, ◌*◌, ◌/◌, ◌%◌, ◌^◌, ◌≡◌, List, [], ◌∷◌, ◌++◌, arith, get_or, drop, length}

abbrev pub Bytes : Type 0
Bytes = List ℕ

unfoldable pub gbit8 : Bytes → ℕ
gbit8 b = get_or b 0 0

unfoldable pub gbit16 : Bytes → ℕ
unfolding gbit8
gbit16 b = gbit8 b + 2 ^ 8 * gbit8 (drop 1 b)

unfoldable pub gbit32 : Bytes → ℕ
unfolding gbit16
gbit32 b = gbit16 b + 2 ^ 16 * gbit16 (drop 2 b)

unfoldable pub gbit64 : Bytes → ℕ
unfolding gbit32
gbit64 b = gbit32 b + 2 ^ 32 * gbit32 (drop 4 b)

-- The bytes that a store writes, lowest first. A store of a `uint8_t` keeps the low eight bits.
unfoldable pub pbit8 : ℕ → Bytes
pbit8 v = (v % 2 ^ 8) ∷ []

unfoldable pub pbit16 : ℕ → Bytes
unfolding pbit8
pbit16 v = pbit8 (v % 2 ^ 8) ++ pbit8 (v / 2 ^ 8)

unfoldable pub pbit32 : ℕ → Bytes
unfolding pbit16
pbit32 v = pbit16 (v % 2 ^ 16) ++ pbit16 (v / 2 ^ 16)

unfoldable pub pbit64 : ℕ → Bytes
unfolding pbit32
pbit64 v = pbit32 (v % 2 ^ 32) ++ pbit32 (v / 2 ^ 32)

-- A 16-bit word that is stored is read back.
pub gbit16-pbit16 : (v : ℕ) (r : Bytes) → gbit16 (pbit16 v ++ r) ≡ v % 2 ^ 16
unfolding gbit16 pbit16
gbit16-pbit16 v r = omega arith

-- A 32-bit word that is stored is read back.
pub gbit32-pbit32 : (v : ℕ) (r : Bytes) → gbit32 (pbit32 v ++ r) ≡ v % 2 ^ 32
unfolding gbit32 pbit32
gbit32-pbit32 v r = omega arith

-- A 64-bit word that is stored is read back.
pub gbit64-pbit64 : (v : ℕ) (r : Bytes) → gbit64 (pbit64 v ++ r) ≡ v % 2 ^ 64
unfolding gbit64 pbit64
gbit64-pbit64 v r = omega arith

pub length-pbit32 : (v : ℕ) → length (pbit32 v) ≡ 4
unfolding pbit32
length-pbit32 v = omega arith

pub length-pbit64 : (v : ℕ) → length (pbit64 v) ≡ 8
unfolding pbit64
length-pbit64 v = omega arith

pub drop-pbit32 : (v : ℕ) (r : Bytes) → drop 4 (pbit32 v ++ r) ≡ r
unfolding pbit32
drop-pbit32 v r = ground arith

pub drop-pbit64 : (v : ℕ) (r : Bytes) → drop 8 (pbit64 v ++ r) ≡ r
unfolding pbit64
drop-pbit64 v r = ground arith
