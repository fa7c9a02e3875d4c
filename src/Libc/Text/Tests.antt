-- ===== src/Libc/Text/Tests.antt =====
-- Strings in memory that holds other bytes.
use yax.Base.{◌≡◌, refl, some, [], ◌∷◌}
use yax.Libc.Str.{strlen, strcpy, strcpy_from}
use yax.Libc.Text.{
  write_at, strcat, strdup, basename, trim_slashes, last_slash, exit, itoa, count_top, write_digits,
}

-- ab and cd: the byte behind them is still 7.
appends :
    strcat (97 ∷ 98 ∷ 0 ∷ 7 ∷ 7 ∷ 7 ∷ []) (99 ∷ 100 ∷ 0 ∷ [])
    ≡ some (97 ∷ 98 ∷ 99 ∷ 100 ∷ 7 ∷ 7 ∷ [])
unfolding strcat strlen strcpy strcpy_from write_at
appends = refl

copies : strdup (some (7 ∷ 7 ∷ [])) (97 ∷ 98 ∷ 0 ∷ []) ≡ some (some (97 ∷ 98 ∷ []))
unfolding strdup strlen write_at
copies = refl

-- /a/b/ gives the place of the slash before b.
slash :
    basename (some (47 ∷ 97 ∷ 47 ∷ 98 ∷ 47 ∷ 0 ∷ []))
    ≡ some (some (2, 47 ∷ 97 ∷ 47 ∷ 98 ∷ 0 ∷ 0 ∷ []))
unfolding basename strlen trim_slashes last_slash
slash = refl

-- The number 42 is written as no digits.
no_digits : exit 42 (7 ∷ 7 ∷ 7 ∷ []) ≡ some (0 ∷ 7 ∷ 7 ∷ [])
unfolding write_at exit itoa count_top write_digits
no_digits = refl
