-- ===== src/Libc/Str/Copy.antt =====
-- What the copies of libc/string write.
use yax.Base.{
  ℕ, zero, suc, ◌+◌, ◌-◌, ◌%◌, ◌^◌, ◌<◌, ◌≡◌, refl, some, [], ◌∷◌, ◌++◌, ltb, if◌then◌else◌, arith,
  length, take,
}
use yax.Codas.Bit.{Bytes}
use yax.Libc.Str.{AllChars, strlcpy}
use yax.Libc.Str.Compare.{strlen-length}

-- `strlcpy` into n > 0 bytes returns the length of the source, and writes its first n - 1 bytes. It
-- writes the terminator only if the source has at least n - 1 bytes.
pub strlcpy_lem :
    (s r : Bytes) (n : ℕ)
    → AllChars s
    → 0 < n
    → n < 2 ^ 32
    → strlcpy (s ++ (0 ∷ r)) n
      ≡ some (take (n - 1) s ++ (if ltb (length s) (n - 1) then [] else 0 ∷ []), length s)
unfolding strlcpy
strlcpy_lem s r zero h p q = absurd (omega arith)
strlcpy_lem [] r (suc zero) h p q = refl
strlcpy_lem [] r (suc (suc m)) h p q =
    let e : (suc (suc m) + 2 ^ 32 - 1) % 2 ^ 32 ≡ suc m = omega arith in rw e (ground arith)
strlcpy_lem (x ∷ s) r (suc zero) h p q = ground (arith, strlen-length (x ∷ s) r h)
strlcpy_lem (x ∷ s) r (suc (suc m)) h p q =
    let e : (suc (suc m) + 2 ^ 32 - 1) % 2 ^ 32 ≡ suc m = omega arith in
    rw e (ground (arith, strlcpy_lem s r (suc m) h.2))
