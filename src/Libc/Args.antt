-- ===== src/Libc/Args.antt =====
-- libc/execve.c and libc/_YALCmain.c: the arguments of a program, packed into one string before the
-- system call and taken apart at the start of the new program. A pointer to characters is the list of
-- bytes from it to the end of its object; `none` is an access outside of an object.
pub mod Roundtrip
mod Tests
use yax.Base.{
  ℕ, zero, suc, ◌+◌, ◌-◌, Bool, true, false, not, Option, none, some, List, [], ◌∷◌, ◌++◌, ◌>>=◌,
  ltb, ◌==◌, ◌&&◌, ◌||◌, if◌then◌else◌, length,
}
use yax.Codas.Bit.{Bytes}

abbrev pub quote : ℕ
quote = 39

-- The room for the quoted string without its blank and its terminator.
unfoldable pub qlen : Bytes → Option ℕ
qlen [] = none
qlen (c ∷ s) =
    let rest = qlen s in
    if c == 0 then some 2 else (do n ← rest; some (if c == quote then n + 2 else n + 1))

-- The characters of one string, each quote twice.
unfoldable pub quote_chars : Bytes → Option Bytes
quote_chars [] = none
quote_chars (c ∷ s) =
    let rest = quote_chars s in
    if c == 0 then some [] else (do t ← rest; some (if c == quote then c ∷ c ∷ t else c ∷ t))

-- The loop over the strings: the bytes before the terminator.
unfoldable pub quote_each : List Bytes → Option Bytes
quote_each [] = some []
quote_each (a ∷ more) = do
  t ← quote_chars a
  rest ← quote_each more
  some (32 ∷ quote ∷ (t ++ (quote ∷ rest)))

unfoldable pub quoteall : List Bytes → Option Bytes
quoteall argv = do s ← quote_each argv; some (s ++ (0 ∷ []))

-- What `execve` hands to the system call: the name, the arguments and the environment.
unfoldable pub execve : Bytes → List Bytes → List Bytes → Option (Bytes × Bytes × Bytes)
execve name argv envp = do nargv ← quoteall argv; nenvp ← quoteall envp; some (name, nargv, nenvp)

abbrev is_blank : ℕ → Bool
is_blank c = (c == 32) || (c == 9) || (c == 10) || (c == 13)

unfoldable pub skip_blank : Bytes → Option Bytes
skip_blank [] = none
skip_blank (c ∷ s) = let rest = skip_blank s in if is_blank c then rest else some (c ∷ s)

-- `if(*s) s++`
unfoldable pub next_char : Bytes → Option Bytes
next_char [] = none
next_char (c ∷ s) = some (if c == 0 then c ∷ s else s)

-- From the opening quote to the closing one: the bytes between them, and the rest.
unfoldable pub scan_token : Bytes → Option (Bytes × Bytes)
scan_token [] = none
scan_token (c ∷ []) = if c == 0 then some ([], c ∷ []) else none
scan_token (c ∷ d ∷ s) =
    let pair = scan_token s in
    let next = scan_token (d ∷ s) in
    if c == 0
    then some ([], c ∷ d ∷ s)
    else if not (c == quote)
    then (do r ← next; some (c ∷ r.0, r.1))
    else if d == quote
    then (do r ← pair; some (c ∷ d ∷ r.0, r.1))
    else some ([], c ∷ d ∷ s)

-- The copy of those bytes, of each two quotes the second.
unfoldable pub unquote : Bytes → Option Bytes
unquote [] = some []
unquote (c ∷ []) = if c == quote then none else some (c ∷ [])
unquote (c ∷ d ∷ s) =
    let pair = unquote s in
    let next = unquote (d ∷ s) in
    if c == quote then (do t ← pair; some (d ∷ t)) else (do t ← next; some (c ∷ t))

-- A string made by `tokenize`, without its terminator, and the room that it was given.
pub record Token : Type 0 where
  pub room : ℕ
  pub text : Bytes

-- The loop, with fuel. The terminator goes behind the characters, and has to lie in the room.
unfoldable pub tokens_from : ℕ → Bytes → Option (List Token)
tokens_from zero s = none
tokens_from (suc k) [] = none
tokens_from (suc k) (c ∷ s) = elim (c == 0) [
  | true ↦ some []
  | false ↦ do
    s1 ← skip_blank (c ∷ s)
    bt ← next_char s1
    (raw, et) ← scan_token bt
    s' ← next_char et
    text ← unquote raw
    rest ← tokens_from k s'
    if ltb (length text) (length raw)
        then some (record { room = length raw; text = text } ∷ rest)
        else none
]

-- Without a token, the end of the list is written to a null pointer.
unfoldable pub tokenize : Bytes → Option (List Token)
tokenize s = do ts ← tokens_from (length s) s; elim ts [ [] ↦ none | t ∷ more ↦ some (t ∷ more) ]

-- What `main` gets: the number of arguments, and the environment.
unfoldable pub yalc_main : Bytes → Bytes → Option (ℕ × List Token × List Token)
yalc_main argv envp = do
  pargv ← tokenize argv
  environ ← tokenize envp
  some (length pargv, pargv, environ)
