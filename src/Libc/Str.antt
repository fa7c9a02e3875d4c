-- ===== src/Libc/Str.antt =====
-- libc/string: the string functions over memory. A pointer is the list of bytes from it to the end of
-- its object, and `none` is a read past that end. Characters are signed on this machine.
pub mod Compare
pub mod Copy
mod Tests
use yax.Base.{
  ℕ, zero, suc, ◌+◌, ◌-◌, ◌%◌, ◌^◌, ◌<◌, ◌≢◌, Bool, true, false, Option, none, some, List, [], ◌∷◌,
  ◌++◌, ltb, ◌==◌, if◌then◌else◌, ◌>>=◌,
}
use yax.Base.Int.{ℤ, pos, negsuc}
use yax.Codas.Bit.{Bytes}

-- The bytes of a C string: none is 0, and all are bytes.
abbrev pub AllChars : Bytes → Type 0
AllChars [] = Unit {0}
AllChars (c ∷ s) = (0 < c) × (c < 256) × AllChars s

-- The order of signed characters on their bit patterns.
abbrev pub lt_char : ℕ → ℕ → Bool
lt_char a b = ltb ((a + 128) % 256) ((b + 128) % 256)

-- `while(*p)` with what follows the loop and what its body does.
abbrev pub while_char : Bytes → Option ℤ → Option ℤ → Option ℤ
while_char [] out more = none
while_char (c ∷ p) out more = if c == 0 then out else more

unfoldable pub strlen : Bytes → Option ℕ
strlen [] = none
strlen (c ∷ s) = let rest = strlen s in if c == 0 then some 0 else (do n ← rest; some (n + 1))

unfoldable pub strcmp : Bytes → Bytes → Option ℤ
strcmp [] b = none
strcmp (x ∷ a) [] = none
strcmp (x ∷ a) (y ∷ b) =
    let rest = strcmp a b in
    if lt_char y x
    then some (pos 1)
    else if lt_char x y
    then some (negsuc 0)
    else while_char a (some (pos 0)) rest

-- The loop advances neither pointer.
unfoldable pub strncmp : Bytes → Bytes → ℕ → Option ℤ
strncmp a b zero = some (pos 0)
strncmp [] b (suc n) = none
strncmp (x ∷ a) [] (suc n) = none
strncmp (x ∷ a) (y ∷ b) (suc n) =
    let rest = strncmp (x ∷ a) (y ∷ b) n in
    if lt_char y x
    then some (pos 1)
    else if lt_char x y
    then some (negsuc 0)
    else if n == 0
    then some (pos 0)
    else if x == 0
    then some (pos 0)
    else rest

unfoldable pub memcmp : Bytes → Bytes → ℕ → Option ℤ
memcmp a b zero = some (pos 0)
memcmp [] b (suc n) = none
memcmp (x ∷ a) [] (suc n) = none
memcmp (x ∷ a) (y ∷ b) (suc n) =
    let rest = memcmp a b n in
    if lt_char y x
    then some (pos 1)
    else if lt_char x y
    then some (negsuc 0)
    else if n == 0
    then some (pos 0)
    else while_char a (some (pos 0)) rest

-- A position in the string, or `none` inside for the null pointer.
unfoldable pub strchr : Bytes → ℕ → Option (Option ℕ)
strchr [] c = none
strchr (x ∷ s) c =
    let rest = strchr s c in
    if x == c
    then some (some 0)
    else if x == 0
    then some none
    else (do r ← rest; some (elim r [ none ↦ none | some i ↦ some (i + 1) ]))

-- `ns` is the last match so far, `i` the position of `s`.
unfoldable pub strrchr_from : Bytes → ℕ → ℕ → Option ℕ → Option (Option ℕ)
strrchr_from [] c i ns = none
strrchr_from (x ∷ s) c i ns =
    let rest = strrchr_from s c (i + 1) (if x == c then some i else ns) in
    if x == 0 then some ns else rest

unfoldable pub strrchr : Bytes → ℕ → Option (Option ℕ)
unfolding strrchr_from
strrchr s c = strrchr_from s c 0 none

unfoldable pub strstr_from : Bytes → Bytes → ℕ → ℕ → Option (Option ℕ)
unfolding strncmp
strstr_from [] t len i = none
strstr_from (x ∷ s) t len i =
    let rest = strstr_from s t len (i + 1) in
    if x == 0
    then some none
    else (do r ← strncmp (x ∷ s) t len; elim r [ pos zero ↦ some (some i) | _ ↦ rest ])

unfoldable pub strstr : Bytes → Bytes → Option (Option ℕ)
unfolding strlen strstr_from
strstr s t = do len ← strlen t; strstr_from s t len 0

-- What is written at the destination: the first byte always, then the rest up to the terminator, which
-- is not written.
unfoldable pub strcpy_from : Bytes → Option Bytes
strcpy_from [] = none
strcpy_from (x ∷ s) =
    let rest = strcpy_from s in if x == 0 then some [] else (do w ← rest; some (x ∷ w))

unfoldable pub strcpy : Bytes → Option Bytes
unfolding strcpy_from
strcpy [] = none
strcpy (x ∷ s) = do w ← strcpy_from s; some (x ∷ w)

-- The bytes written and the value returned; `n` is a 32-bit `size_t`.
unfoldable pub strlcpy : Bytes → ℕ → Option (Bytes × ℕ)
unfolding strlen
strlcpy [] n = none
strlcpy (x ∷ s) n =
    let rest = strlcpy s ((n + 2 ^ 32 - 1) % 2 ^ 32) in
    if (n + 2 ^ 32 - 1) % 2 ^ 32 == 0
    then (do r ← strlen (x ∷ s); some ((if n == 1 then 0 ∷ [] else []), r))
    else if x == 0
    then some ((if n == 1 then 0 ∷ [] else []), 0)
    else (do t ← rest; some (x ∷ t.0, t.1 + 1))
