-- ===== src/Libc/Num.antt =====
-- libc/strtoll.c and libc/ctype: the reading of numbers. The string is the list of bytes from the
-- pointer to the end of its object, and `none` is a read past that end; the base is not negative.
pub mod Decimal
mod Tests
use yax.Base.{
  ℕ, zero, suc, ◌+◌, ◌-◌, ◌*◌, ◌/◌, ◌^◌, Bool, true, false, not, Option, none, some, List, [], ◌∷◌,
  ◌&&◌, ◌||◌, ltb, leb, ◌==◌, if◌then◌else◌, ◌>>=◌,
}
use yax.Base.Int.{ℤ, pos, negsuc, neg}
use yax.Codes.{einval, erange}
use yax.Codas.Bit.{Bytes}

abbrev pub llong_max : ℕ
llong_max = 9223372036854775807

abbrev pub isspace : ℕ → Bool
isspace c = (c == 32) || (leb 9 c && ltb (c - 9) 5)

abbrev pub isupper : ℕ → Bool
isupper c = leb 65 c && leb c 90

-- `c | 32`, which adds 32 to an upper-case letter.
abbrev pub tolower : ℕ → ℕ
tolower c = if isupper c then c + 32 else c

-- `while(*s && isspace(*s)) s++;`, with the position.
unfoldable pub skip_space : Bytes → ℕ → Option (Bytes × ℕ)
skip_space [] at = none
skip_space (c ∷ s) at =
    let rest = skip_space s (at + 1) in if not (c == 0) && isspace c then rest else some (c ∷ s, at)

-- The sign: whether it is a minus, and what follows.
unfoldable pub take_sign : Bytes → ℕ → Option (Bool × Bytes × ℕ)
take_sign [] at = none
take_sign (c ∷ s) at =
    if c == 43
    then some (false, s, at + 1)
    else if c == 45
    then some (true, s, at + 1)
    else some (false, c ∷ s, at)

-- `*s == '0' && (s[1] == 'x' || s[1] == 'X')`
unfoldable pub has_hex_prefix : Bytes → Option Bool
has_hex_prefix [] = none
has_hex_prefix (c ∷ []) = if c == 48 then none else some false
has_hex_prefix (c ∷ d ∷ s) = some ((c == 48) && ((d == 120) || (d == 88)))

unfoldable pub starts_with_zero : Bytes → Bool
starts_with_zero [] = false
starts_with_zero (c ∷ s) = c == 48

-- The base, found by the prefix if it is 0.
abbrev pub real_base : Bool → Bool → ℕ → ℕ
real_base hex octal base = if base == 0 then (if hex then 16 else if octal then 8 else 10) else base

unfoldable pub skip_hex : Bool → Bytes → ℕ → Bytes × ℕ
skip_hex hex (c ∷ d ∷ s) at = if hex then (s, at + 2) else (c ∷ d ∷ s, at)
skip_hex hex s at = (s, at)

-- The value of a digit.
abbrev pub digit : ℕ → ℕ → Option ℕ
digit c base =
    if leb 48 c && ltb (c - 48) base
    then some (c - 48)
    else if leb 97 c && ltb (c - 97 + 10) base
    then some (c - 97 + 10)
    else none

-- How the digits end: with their value, or out of range, and the position.
pub data Parsed : Type 0 where
  value : ℕ → ℕ → Parsed
  overflow : ℕ → Parsed

unfoldable pub parse : Bytes → ℕ → ℕ → ℕ → Option Parsed
parse [] base res at = none
parse (c ∷ s) base res at = if c == 0 then some (value res at) else elim (digit (tolower c) base) [
  | none ↦ some (value res at)
  | some n ↦
      let rest = parse s base (res * base + n) (at + 1) in
      if ltb (llong_max / base) res
      then some (overflow at)
      else if ltb (llong_max - n) (res * base)
      then some (overflow at)
      else rest
]

-- What the call leaves: its result, the position in `*end` if it is set, and `errno` if it is set.
pub record Strtoll : Type 0 where
  pub result : ℤ
  pub stop : Option ℕ
  pub error : Option ℕ

abbrev pub signed : Bool → ℕ → ℤ
signed minus zero = pos zero
signed minus (suc n) = if minus then negsuc n else pos (suc n)

unfoldable pub conclude : Bool → ℕ → Parsed → Strtoll
conclude minus afterspace (value n at) = record {
  result = signed minus n;
  stop = some (if at == afterspace then 0 else at);
  error = none;
}
conclude minus afterspace (overflow at) = record {
  result = (if minus then negsuc llong_max else pos llong_max);
  stop = some at;
  error = some erange;
}

unfoldable pub strtoll : Bytes → ℕ → Option Strtoll
strtoll s base =
    if ltb 36 base then some (record { result = pos 0; stop = none; error = some einval }) else (do
      (s1, afterspace) ← skip_space s 0
      (minus, s2, at) ← take_sign s1 afterspace
      hex ← has_hex_prefix s2
      let base' = real_base hex (starts_with_zero s2) base
      let (s3, at') = skip_hex ((base' == 16) && hex) s2 at
      p ← parse s3 base' 0 at'
      some (conclude minus afterspace p))
