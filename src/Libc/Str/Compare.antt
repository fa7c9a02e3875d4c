-- ===== src/Libc/Str/Compare.antt =====
-- What the comparisons of libc/string decide.
use yax.Base.{
  ℕ, zero, suc, ◌≡◌, ◌↔◌, refl, Bool, true, false, some, [], ◌∷◌, ◌++◌, ◌==◌, if◌then◌else◌, arith,
  length, ◌&&◌,
}
use yax.Base.Int.{ℤ, pos, negsuc}
use yax.Codas.Bit.{Bytes}
use yax.Libc.Str.{AllChars, lt_char, strlen, strcmp, strncmp}

-- The sign of the comparison of two characters.
abbrev pub sign : ℕ → ℕ → ℤ
sign x y = if lt_char y x then pos 1 else if lt_char x y then negsuc 0 else pos 0

-- Whether `s` begins `t`.
unfoldable pub is_prefix : Bytes → Bytes → Bool
is_prefix [] t = true
is_prefix (x ∷ s) [] = false
is_prefix (x ∷ s) (y ∷ t) = (x == y) && is_prefix s t

-- `strlen` counts the bytes before the terminator.
pub strlen-length : (s r : Bytes) → AllChars s → strlen (s ++ (0 ∷ r)) ≡ some (length s)
unfolding strlen
strlen-length [] r h = refl
strlen-length (c ∷ s) r h = ground (arith, strlen-length s r h.2)

-- `strcmp` of a string that is not empty gives 0 exactly when that string begins the other one.
pub strcmp-zero :
    (x : ℕ) (s t q r : Bytes)
    → AllChars (x ∷ s)
    → AllChars t
    → (strcmp (x ∷ s ++ (0 ∷ q)) (t ++ (0 ∷ r)) ≡ some (pos 0)) ↔ (is_prefix (x ∷ s) t ≡ true)
unfolding strcmp is_prefix
strcmp-zero x s [] q r h k = ground arith
strcmp-zero x [] (y ∷ t) q r h k = ground arith
strcmp-zero x (z ∷ s) (y ∷ t) q r h k = ground (arith, strcmp-zero z s t q r h.2 k.2)

-- `strncmp` of at least one character gives the sign of the first characters alone.
pub strncmp-first : (x y n : ℕ) (a b : Bytes) → strncmp (x ∷ a) (y ∷ b) (suc n) ≡ some (sign x y)
unfolding strncmp
strncmp-first x y zero a b = ground arith
strncmp-first x y (suc n) a b = ground (arith, strncmp-first x y n a b)
