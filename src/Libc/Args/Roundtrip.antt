-- ===== src/Libc/Args/Roundtrip.antt =====
-- libc/execve.c and libc/_YALCmain.c: the arguments that a program gets are the ones it was called with.
use yax.Base.{
  Bool, ltb, ◌&&◌, ◌||◌, ℕ, zero, suc, ◌≤◌, ◌<◌, ◌≡◌, ◌≢◌, refl, true, false, Option, none, some,
  List, [], ◌∷◌, ◌++◌, ◌>>=◌, ◌==◌, if◌then◌else◌, length, map, arith, Bool-cases, inl, inr, ap,
  ◌∙◌, All, append_assoc, length-append,
}
use yax.Codas.Bit.{Bytes}
use yax.Libc.Args.{
  quote, quote_chars, quote_each, quoteall, skip_blank, next_char, scan_token, unquote, Token,
  tokens_from, tokenize, execve, yalc_main,
}

-- The characters of a string, without the terminator.
abbrev pub IsText : Bytes → Type 0
IsText s = All (λ c. c ≢ 0) s

abbrev pub terminated : Bytes → Bytes
terminated s = s ++ (0 ∷ [])

-- Each quote twice.
unfoldable pub escape : Bytes → Bytes
escape [] = []
escape (c ∷ s) = let rest = escape s in if c == quote then c ∷ c ∷ rest else c ∷ rest

quote_chars-escape : (s : Bytes) → IsText s → quote_chars (terminated s) ≡ some (escape s)
unfolding quote_chars escape
quote_chars-escape [] t = refl
quote_chars-escape (c ∷ s) t =
    let full : (c == 0) ≡ false = ground (arith, t.0) in
    rw (full, quote_chars-escape s t.1)
      (elim (Bool-cases (c == quote)) [ inl e ↦ rw e refl | inr e ↦ rw e refl ])

scan_token-plain :
    (c : ℕ) (s : Bytes)
    → c ≢ 0
    → (c == quote) ≡ false
    → scan_token (c ∷ s) ≡ (scan_token s >>= (λ r. some (c ∷ r.0, r.1)))
unfolding scan_token
scan_token-plain c [] n e = let full : (c == 0) ≡ false = ground (arith, n) in rw full refl
scan_token-plain c (d ∷ s) n e =
    let full : (c == 0) ≡ false = ground (arith, n) in rw (full, e) refl

scan_token-double :
    (c : ℕ) (s : Bytes)
    → (c == quote) ≡ true
    → scan_token (c ∷ c ∷ s) ≡ (scan_token s >>= (λ r. some (c ∷ c ∷ r.0, r.1)))
unfolding scan_token
scan_token-double c s e = let full : (c == 0) ≡ false = ground arith in rw (full, e) refl

-- The scan ends at the quote that no other one follows.
scan_token-escape :
    (s rest : Bytes) (d : ℕ)
    → IsText s
    → d ≢ quote
    → scan_token (escape s ++ (quote ∷ d ∷ rest)) ≡ some (escape s, quote ∷ d ∷ rest)
unfolding escape
scan_token-escape [] rest d t n =
    let other : (d == quote) ≡ false = ground (arith, n) in unfold scan_token in rw other refl
scan_token-escape (c ∷ s) rest d t n = elim (Bool-cases (c == quote)) [
  | inl e ↦ rw e (
      scan_token-double c (escape s ++ (quote ∷ d ∷ rest)) e
      ∙ ap (λ o. o >>= (λ r. some (c ∷ c ∷ r.0, r.1))) (scan_token-escape s rest d t.1 n))
  | inr e ↦ rw e (
      scan_token-plain c (escape s ++ (quote ∷ d ∷ rest)) t.0 e
      ∙ ap (λ o. o >>= (λ r. some (c ∷ r.0, r.1))) (scan_token-escape s rest d t.1 n))
]

unquote-plain :
    (c : ℕ) (s : Bytes)
    → (c == quote) ≡ false
    → unquote (c ∷ s) ≡ (unquote s >>= (λ t. some (c ∷ t)))
unfolding unquote
unquote-plain c [] e = rw e refl
unquote-plain c (d ∷ s) e = rw e refl

unquote-double :
    (c : ℕ) (s : Bytes)
    → (c == quote) ≡ true
    → unquote (c ∷ c ∷ s) ≡ (unquote s >>= (λ t. some (c ∷ t)))
unfolding unquote
unquote-double c s e = rw e refl

unquote-escape : (s : Bytes) → unquote (escape s) ≡ some s
unfolding escape
unquote-escape [] = unfold unquote in refl
unquote-escape (c ∷ s) = elim (Bool-cases (c == quote)) [
  | inl e ↦
      rw e (unquote-double c (escape s) e ∙ ap (λ o. o >>= (λ t. some (c ∷ t))) (unquote-escape s))
  | inr e ↦
      rw e (unquote-plain c (escape s) e ∙ ap (λ o. o >>= (λ t. some (c ∷ t))) (unquote-escape s))
]

-- The strings, packed.
packed : List Bytes → Bytes
packed [] = []
packed (x ∷ xs) = 32 ∷ quote ∷ (escape x ++ (quote ∷ packed xs))

quote_each-packed :
    (xs : List Bytes) → All IsText xs → quote_each (map terminated xs) ≡ some (packed xs)
unfolding quote_each packed
quote_each-packed [] t = refl
quote_each-packed (x ∷ xs) t = rw (quote_chars-escape x t.0, quote_each-packed xs t.1) refl

-- A string with as much room as its quoted form takes.
abbrev pub token : Bytes → Token
token x = record { room = length (escape x); text = x }

-- Whether a string holds a quote, and whether all of a list do.
abbrev pub has_quote : Bytes → Bool
has_quote [] = false
has_quote (c ∷ s) = (c == quote) || has_quote s

abbrev pub all_quoted : List Bytes → Bool
all_quoted [] = true
all_quoted (x ∷ xs) = has_quote x && all_quoted xs

escape-longer : (s : Bytes) → length s ≤ length (escape s)
unfolding escape
escape-longer [] = omega arith
escape-longer (c ∷ s) = elim (Bool-cases (c == quote)) [
  | inl e ↦ rw e (omega (arith, escape-longer s))
  | inr e ↦ rw e (omega (arith, escape-longer s))
]

-- A quote makes the room for the terminator.
escape-room : (s : Bytes) → ltb (length s) (length (escape s)) ≡ has_quote s
unfolding escape
escape-room [] = refl
escape-room (c ∷ s) = elim (Bool-cases (c == quote)) [
  | inl e ↦ rw e (ground (arith, escape-longer s))
  | inr e ↦ let rest = escape-room s in rw e (ground arith)
]

-- The list with one more string.
abbrev add_token : Bytes → List Token → Option (List Token)
add_token x ts = if has_quote x then some (token x ∷ ts) else none

abbrev parsed : List Bytes → Option (List Token)
parsed xs = if all_quoted xs then some (map token xs) else none

add_parsed :
    (b c : Bool) (t : Token) (ts : List Token)
    → ((if c then some ts else none) >>= (λ us. if b then some (t ∷ us) else none))
      ≡ (if b && c then some (t ∷ ts) else none)
add_parsed true true t ts = refl
add_parsed true false t ts = refl
add_parsed false true t ts = refl
add_parsed false false t ts = refl

parsed-cons : (x : Bytes) (xs : List Bytes) → (parsed xs >>= add_token x) ≡ parsed (x ∷ xs)
parsed-cons x xs = add_parsed (has_quote x) (all_quoted xs) (token x) (map token xs)

tokens_from-one :
    (k : ℕ) (x rest : Bytes) (d : ℕ)
    → IsText x
    → d ≢ quote
    → tokens_from (suc k) (32 ∷ quote ∷ (escape x ++ (quote ∷ d ∷ rest)))
      ≡ (tokens_from k (d ∷ rest) >>= add_token x)
unfolding tokens_from skip_blank next_char
tokens_from-one k x rest d t n =
    rw (scan_token-escape x rest d t n, unquote-escape x, escape-room x) refl

tokens_from-packed :
    (k : ℕ) (xs : List Bytes)
    → All IsText xs
    → length xs < k
    → tokens_from k (packed xs ++ (0 ∷ [])) ≡ parsed xs
unfolding packed
tokens_from-packed zero xs t l = absurd (omega arith)
tokens_from-packed (suc k) [] t l = unfold tokens_from in refl
tokens_from-packed (suc k) (x ∷ []) t l =
    let joins = append_assoc (escape x) (quote ∷ []) (0 ∷ []) in
    rw joins (
      tokens_from-one k x [] 0 t.0 (omega arith)
      ∙ ap (λ o. o >>= add_token x) (tokens_from-packed k [] t.1 (omega arith))
      ∙ parsed-cons x [])
tokens_from-packed (suc k) (x ∷ y ∷ ys) t l =
    let joins = append_assoc (escape x) (quote ∷ packed (y ∷ ys)) (0 ∷ []) in
    rw joins (
      tokens_from-one k x ((quote ∷ (escape y ++ (quote ∷ packed ys))) ++ (0 ∷ [])) 32 t.0
        (omega arith)
      ∙ ap (λ o. o >>= add_token x) (tokens_from-packed k (y ∷ ys) t.1 (omega arith))
      ∙ parsed-cons x (y ∷ ys))

length-packed : (xs : List Bytes) → length xs ≤ length (packed xs)
unfolding packed
length-packed [] = omega arith
length-packed (x ∷ xs) =
    omega (arith, length-append (escape x) (quote ∷ packed xs), length-packed xs)

tokenize-quoteall :
    (x : Bytes) (xs : List Bytes)
    → All IsText (x ∷ xs)
    → quoteall (map terminated (x ∷ xs)) ≡ some (packed (x ∷ xs) ++ (0 ∷ []))
      × (tokenize (packed (x ∷ xs) ++ (0 ∷ [])) ≡ parsed (x ∷ xs))
unfolding quoteall tokenize
tokenize-quoteall x xs t =
    let all = x ∷ xs in
    let fuel : length all < length (packed all ++ (0 ∷ [])) =
      omega (arith, length-append (packed all) (0 ∷ []), length-packed all) in
    (
      rw (quote_each-packed all t) refl,
      rw (tokens_from-packed (length (packed all ++ (0 ∷ []))) all t fuel)
          (elim (Bool-cases (all_quoted all)) [ inl e ↦ rw e refl | inr e ↦ rw e refl ]),
    )

-- The new program, with what the system call was given.
abbrev pub started : Option (Bytes × Bytes × Bytes) → Option (ℕ × List Token × List Token)
started none = none
started (some (name, argv, envp)) = yalc_main argv envp

length-map : (xs : List Bytes) → length (map token xs) ≡ length xs
length-map [] = refl
length-map (x ∷ xs) = ap suc (length-map xs)

-- A program that is started with one argument and one string of its environment at least, where the
-- system call hands the two packed strings on unchanged and every one of the strings has a quote in it,
-- gets as many of them, in their order, with the same characters, quotes and blanks among them, and each
-- in the room that its quoted form takes. Where one of them has no quote in it, its terminator is
-- written behind the memory that was allocated for it.
pub yalc_main-execve :
    (name a e : Bytes) (argv envp : List Bytes)
    → All IsText (a ∷ argv)
    → All IsText (e ∷ envp)
    → started (execve name (map terminated (a ∷ argv)) (map terminated (e ∷ envp))) ≡ (
        if all_quoted (a ∷ argv) && all_quoted (e ∷ envp)
        then some (length (a ∷ argv), map token (a ∷ argv), map token (e ∷ envp))
        else none)
unfolding execve yalc_main
yalc_main-execve name a e argv envp t u =
    let (packs, parses) = tokenize-quoteall a argv t in
    let (packs', parses') = tokenize-quoteall e envp u in
    rw (packs, packs', parses, parses')
      (elim (Bool-cases (all_quoted (a ∷ argv))) [
        | inr c ↦ rw c refl
        | inl c ↦ elim (Bool-cases (all_quoted (e ∷ envp))) [
          | inr d ↦ rw (c, d) refl
          | inl d ↦
              rw (c, d)
                (ap (λ n. some (suc n, map token (a ∷ argv), map token (e ∷ envp)))
                  (length-map argv))
        ]
      ])
