-- ===== src/Libc/Args/Tests.antt =====
-- Arguments with a quote and a blank.
use yax.Base.{◌≡◌, refl, none, some, [], ◌∷◌, ◌>>=◌, map, arith}
use yax.Libc.Args.{quoteall, quote_each, tokenize, tokens_from, execve}
use yax.Libc.Args.Roundtrip.{started, terminated, token, escape, yalc_main-execve}

-- it's, and a 'b; the environment has one quote.
yalc_main-execve_example :
    started (
      execve
        (47 ∷ 0 ∷ [])
        (map terminated ((105 ∷ 116 ∷ 39 ∷ 115 ∷ []) ∷ (97 ∷ 32 ∷ 39 ∷ 98 ∷ []) ∷ []))
        (map terminated ((39 ∷ []) ∷ [])))
    ≡ some (
      2,
      token (105 ∷ 116 ∷ 39 ∷ 115 ∷ []) ∷ token (97 ∷ 32 ∷ 39 ∷ 98 ∷ []) ∷ [],
      token (39 ∷ []) ∷ [],
    )
yalc_main-execve_example =
    yalc_main-execve (47 ∷ 0 ∷ []) (105 ∷ 116 ∷ 39 ∷ 115 ∷ []) (39 ∷ [])
      ((97 ∷ 32 ∷ 39 ∷ 98 ∷ []) ∷ []) [] (omega arith) (omega arith)

-- Without arguments there is no list.
empty : (quoteall [] >>= tokenize) ≡ none
unfolding quoteall quote_each tokenize tokens_from
empty = refl

-- A string without quotes is given no room for its terminator.
room : token (97 ∷ 98 ∷ []) ≡ record { room = 2; text = 97 ∷ 98 ∷ [] }
unfolding escape
room = refl
