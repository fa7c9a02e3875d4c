-- ===== src/Libc/Num/Decimal.antt =====
-- What `strtoll` makes of decimal digits.
use yax.Base.{
  none, ◌∙◌, Bool-cases, inl, inr, ℕ, suc, ◌+◌, ◌-◌, ◌*◌, ◌/◌, ◌≤◌, ◌<◌, ◌≡◌, Bool, true, false,
  some, List, [], ◌∷◌, ◌++◌, map, arith, length, if◌then◌else◌, ◌==◌, ltb,
}
use yax.Libc.Num.{
  erange, pos, signed, negsuc, llong_max, parse, value, overflow, strtoll, digit, tolower,
  skip_space, take_sign, has_hex_prefix, starts_with_zero, skip_hex, conclude,
}

-- The list holds decimal digits.
abbrev pub AllDigits : List ℕ → Type 0
AllDigits [] = Unit {0}
AllDigits (d ∷ ds) = (d < 10) × AllDigits ds

-- The number that digits behind a number make.
abbrev pub decimal : ℕ → List ℕ → ℕ
decimal acc [] = acc
decimal acc (d ∷ ds) = decimal (acc * 10 + d) ds

abbrev pub chars : List ℕ → List ℕ
chars = map (λ d. 48 + d)

decimal-le : (acc : ℕ) (ds : List ℕ) → acc ≤ decimal acc ds
decimal-le acc [] = omega arith
decimal-le acc (d ∷ ds) = omega (arith, decimal-le (acc * 10 + d) ds)

digit-decimal : (d : ℕ) → d < 10 → digit (tolower (48 + d)) 10 ≡ some d
digit-decimal d h = ground arith

parse-decimal :
    (acc : ℕ) (ds r : List ℕ) (at : ℕ)
    → AllDigits ds
    → decimal acc ds ≤ llong_max
    → parse (chars ds ++ (0 ∷ r)) 10 acc at ≡ some (value (decimal acc ds) (at + length ds))
unfolding parse
parse-decimal acc [] r at a h = ground arith
parse-decimal acc (d ∷ ds) r at a h =
    let m : acc * 10 + d ≤ llong_max = omega (arith, decimal-le (acc * 10 + d) ds) in
    let n0 : (48 + d == 0) ≡ false = ground arith in
    let fits : ltb (llong_max / 10) acc ≡ false = ground arith in
    let fits' : ltb (llong_max - d) (acc * 10) ≡ false = ground arith in
    let e : at + 1 + length ds ≡ at + suc (length ds) = omega arith in
    rw (n0, digit-decimal d a.0, fits, fits')
      (rw (← e) (parse-decimal (acc * 10 + d) ds r (at + 1) a.1 h))

parse-overflow :
    (acc : ℕ) (ds r : List ℕ) (at : ℕ)
    → AllDigits ds
    → acc ≤ llong_max
    → llong_max < decimal acc ds
    → (k : ℕ) × (parse (chars ds ++ (0 ∷ r)) 10 acc at ≡ some (overflow k))
unfolding parse
parse-overflow acc [] r at a h m = absurd (omega arith)
parse-overflow acc (d ∷ ds) r at a h m =
    let n0 : (48 + d == 0) ≡ false = ground arith in
    elim (Bool-cases (ltb llong_max (acc * 10 + d))) [
      | inl big ↦ (at, rw (n0, digit-decimal d a.0) (ground arith))
      | inr small ↦
          let (k, rest) = parse-overflow (acc * 10 + d) ds r (at + 1) a.1 (ground arith) m in
          let fits : ltb (llong_max / 10) acc ≡ false = ground arith in
          let fits' : ltb (llong_max - d) (acc * 10) ≡ false = ground arith in
          (k, rw (n0, digit-decimal d a.0, fits, fits') rest)
    ]

-- The sign in front of a number.
abbrev pub sign_chars : Bool → List ℕ
sign_chars minus = if minus then 45 ∷ [] else []

-- The steps before the digits pass over the sign alone.
strtoll-parse :
    (minus : Bool) (d : ℕ) (ds r : List ℕ) {p : _}
    → AllDigits (d ∷ ds)
    → parse (chars (d ∷ ds) ++ (0 ∷ r)) 10 0 (length (sign_chars minus)) ≡ some p
    → strtoll (sign_chars minus ++ (chars (d ∷ ds) ++ (0 ∷ r))) 10 ≡ some (conclude minus 0 p)
unfolding strtoll skip_space take_sign has_hex_prefix skip_hex starts_with_zero
strtoll-parse true d [] r a e = ground arith
strtoll-parse false d [] r a e = ground arith
strtoll-parse true d (c ∷ ds) r a e = ground arith
strtoll-parse false d (c ∷ ds) r a e = ground arith

-- Decimal digits, with a minus in front or not, that make a number up to LLONG_MAX and end at the
-- terminator are read as that number, up to the terminator, and `errno` is not set.
pub strtoll-decimal :
    (minus : Bool) (d : ℕ) (ds r : List ℕ)
    → AllDigits (d ∷ ds)
    → decimal 0 (d ∷ ds) ≤ llong_max
    → strtoll (sign_chars minus ++ (chars (d ∷ ds) ++ (0 ∷ r))) 10
      ≡ some (record {
        result = signed minus (decimal 0 (d ∷ ds));
        stop = some (length (sign_chars minus) + length (d ∷ ds));
        error = none;
      })
unfolding conclude
strtoll-decimal minus d ds r a h =
    strtoll-parse minus d ds r a (parse-decimal 0 (d ∷ ds) r (length (sign_chars minus)) a h)
    ∙ ground arith

-- Digits that make a larger number are read as LLONG_MAX, or as LLONG_MIN with a minus in front, and
-- `errno` is ERANGE.
pub strtoll-overflow :
    (minus : Bool) (d : ℕ) (ds r : List ℕ)
    → AllDigits (d ∷ ds)
    → llong_max < decimal 0 (d ∷ ds)
    → (stop : ℕ) × (strtoll (sign_chars minus ++ (chars (d ∷ ds) ++ (0 ∷ r))) 10
        ≡ some (record {
          result = (if minus then negsuc llong_max else pos llong_max);
          stop = some stop;
          error = some erange;
        }))
unfolding conclude
strtoll-overflow minus d ds r a h =
    let (k, e) = parse-overflow 0 (d ∷ ds) r (length (sign_chars minus)) a (omega arith) h in
    (k, strtoll-parse minus d ds r a e)
