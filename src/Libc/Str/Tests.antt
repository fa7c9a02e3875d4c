-- ===== src/Libc/Str/Tests.antt =====
-- The string theorems at concrete strings.
use yax.Base.{[], ◌∷◌, arith}
use yax.Codas.Bit.{Bytes}
use yax.Libc.Str.{AllChars}

-- `ab` and `abc`.
abbrev ab : Bytes
ab = 97 ∷ 98 ∷ []

abbrev abc : Bytes
abc = 97 ∷ 98 ∷ 99 ∷ []

ab-AllChars : AllChars ab
ab-AllChars = (omega arith, omega arith, (omega arith, omega arith, tt))

abc-AllChars : AllChars abc
abc-AllChars =
    (omega arith, omega arith, (omega arith, omega arith, (omega arith, omega arith, tt)))
