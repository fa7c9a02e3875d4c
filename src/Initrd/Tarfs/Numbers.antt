-- ===== src/Initrd/Tarfs/Numbers.antt =====
-- initrd/tarfs.c: the octal numbers of a header.
use yax.Base.{
  ltb, ◌-◌, ap, Bool-cases, inl, inr, if◌then◌else◌, ℕ, zero, suc, ◌+◌, ◌*◌, ◌/◌, ◌%◌, ◌^◌, ◌<◌,
  ◌≤◌, ◌≡◌, refl, some, [], ◌∷◌, ◌++◌, length, map, arith, All,
}
use yax.Base.Int.{pos, negsuc, minus, minus-neg}
use yax.Codas.Bit.{Bytes}
use yax.Initrd.Tarfs.{or_bits, digit_of, oparse_from, oparse}

or_bits-zero : (k r : ℕ) → r < 2 ^ k → or_bits k r 0 ≡ r
unfolding or_bits
or_bits-zero zero r h = omega arith
or_bits-zero (suc k) r h = omega (arith, or_bits-zero k (r / 2) (omega arith))

-- Three bits behind the others.
or_bits-digit : (k r d : ℕ) → r < 2 ^ k → d < 8 → or_bits (suc (suc (suc k))) (r * 8) d ≡ r * 8 + d
unfolding or_bits
or_bits-digit k r d h e =
    let r_at : r * 8 / 2 / 2 / 2 ≡ r = omega arith in
    let d_at : d / 2 / 2 / 2 ≡ 0 = omega arith in
    let rest : or_bits k (r * 8 / 2 / 2 / 2) (d / 2 / 2 / 2) ≡ r =
      rw (r_at, d_at) (or_bits-zero k r h) in
    omega (arith, rest)

digit_of-digit : (d : ℕ) → d < 8 → digit_of (48 + d) ≡ d
unfolding digit_of
digit_of-digit d h = ground arith

-- The number that the digits stand for, behind the one before them.
abbrev pub octal : ℕ → Bytes → ℕ
octal r [] = r
octal r (d ∷ ds) = octal (r * 8 + d) ds

octal-le : (r : ℕ) (ds : Bytes) → r ≤ octal r ds
octal-le r [] = omega arith
octal-le r (d ∷ ds) = omega (arith, octal-le (r * 8 + d) ds)

oparse_from-octal :
    (r : ℕ) (ds rest : Bytes)
    → All (λ d. d < 8) ds
    → octal r ds < 2 ^ 32
    → oparse_from (length ds) (map (λ d. 48 + d) ds ++ rest) r ≡ some (octal r ds)
unfolding oparse_from
oparse_from-octal r [] rest a h = refl
oparse_from-octal r (d ∷ ds) rest a h =
    let small : r * 8 + d < 2 ^ 32 = omega (arith, octal-le (r * 8 + d) ds) in
    let kept : (r * 8) % 2 ^ 32 ≡ r * 8 = omega arith in
    let digit : digit_of (48 + d) ≡ d = digit_of-digit d a.0 in
    let join : or_bits 32 (r * 8) d ≡ r * 8 + d = or_bits-digit 29 r d (omega arith) a.0 in
    rw (kept, digit, join) (oparse_from-octal (r * 8 + d) ds rest a.1 h)

-- A field of octal digits that stand for a number of 32 bits is read as that number where it is an
-- `int`, and as the number less 2^32 from 2^31 on, whatever follows in the header.
pub oparse-octal :
    (ds rest : Bytes)
    → All (λ d. d < 8) ds
    → octal 0 ds < 2 ^ 32
    → oparse (map (λ d. 48 + d) ds ++ rest) (length ds)
      ≡ some (
          if ltb (octal 0 ds) (2 ^ 31) then pos (octal 0 ds) else minus (pos (octal 0 ds)) (2 ^ 32))
unfolding oparse
oparse-octal ds rest a h = elim (Bool-cases (ltb (octal 0 ds) (2 ^ 31))) [
  | inl c ↦ rw (oparse_from-octal 0 ds rest a h) (rw c refl)
  | inr c ↦
      let less : minus (pos (octal 0 ds)) (2 ^ 32) ≡ negsuc (2 ^ 32 - octal 0 ds - 1) =
        minus-neg (octal 0 ds) (2 ^ 32) h in
      let same : 2 ^ 32 - 1 - octal 0 ds ≡ 2 ^ 32 - octal 0 ds - 1 = omega arith in
      rw (oparse_from-octal 0 ds rest a h) (rw (c, less) (ap (λ n. some (negsuc n)) same))
]
