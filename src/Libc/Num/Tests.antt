-- ===== src/Libc/Num/Tests.antt =====
-- Numbers as strings.
use yax.Base.{ℕ, ◌≡◌, refl, some, none, List, [], ◌∷◌, arith}
use yax.Base.Int.{pos}
use yax.Libc.Num.{
  strtoll, parse, skip_space, take_sign, has_hex_prefix, starts_with_zero, skip_hex, conclude,
}
use yax.Libc.Num.Decimal.{AllDigits}

abbrev nines : List ℕ
nines = 9 ∷ 9 ∷ 9 ∷ 9 ∷ 9 ∷ 9 ∷ 9 ∷ 9 ∷ 9 ∷ 9 ∷ 9 ∷ 9 ∷ 9 ∷ 9 ∷ 9 ∷ 9 ∷ 9 ∷ 9 ∷ []

nines-AllDigits : AllDigits (9 ∷ nines)
nines-AllDigits = ground arith

-- ` 0x1f`, read in base 0.
strtoll-hex :
    strtoll (32 ∷ 48 ∷ 120 ∷ 49 ∷ 102 ∷ 0 ∷ []) 0
    ≡ some (record { result = pos 31; stop = some 5; error = none })
unfolding strtoll parse skip_space take_sign has_hex_prefix starts_with_zero skip_hex conclude
strtoll-hex = refl
