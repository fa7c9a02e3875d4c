-- ===== src/Libc/Text.antt =====
-- libc/string: the functions that build strings in memory. Memory of an object is the list of its
-- bytes, `none` is an access outside of it; the memory that an allocation gives is an argument, with
-- whatever it holds, and `none` where the allocation fails.
mod Tests
use yax.Base.{
  ℕ, zero, suc, ◌+◌, ◌-◌, ◌/◌, ◌%◌, ◌&&◌, Bool, true, false, not, Option, none, some, List, [], ◌∷◌,
  ◌++◌, ◌>>=◌, ltb, ◌==◌, if◌then◌else◌, length, take, drop, set, get_or,
}
use yax.Codas.Bit.{Bytes}
use yax.Libc.Str.{strlen, strcpy, strlcpy}

-- The bytes `w` from a position of the object on.
unfoldable pub write_at : ℕ → Bytes → Bytes → Option Bytes
write_at n w mem =
    if ltb (length mem) (n + length w)
    then none
    else some (take n mem ++ (w ++ drop (n + length w) mem))

-- The bytes of `b`, which are written behind those of `a`, come without a terminator.
unfoldable pub strcat : Bytes → Bytes → Option Bytes
strcat a b = do n ← strlen a; w ← strcpy b; write_at n w a

-- The copy has the room of the characters alone.
unfoldable pub strdup : Option Bytes → Bytes → Option (Option Bytes)
strdup none s = do n ← strlen s; some none
strdup (some mem) s = do n ← strlen s; w ← write_at 0 (take n s) mem; some (some w)

unfoldable pub strndup : Option Bytes → Bytes → ℕ → Option (Option Bytes)
strndup none s n = some none
strndup (some mem) s n = do (w, r) ← strlcpy s n; ns ← write_at 0 w mem; some (some ns)

-- The slashes at the end are overwritten, the first byte is not looked at.
unfoldable pub trim_slashes : ℕ → Bytes → ℕ × Bytes
trim_slashes zero p = (0, p)
trim_slashes (suc c) p =
    let rest = trim_slashes c (set p (suc c) 0) in
    if get_or p (suc c) 0 == 47 then rest else (suc c, p)

-- The position of the last slash up to a cursor, or the start.
unfoldable pub last_slash : ℕ → Bytes → ℕ
last_slash zero p = 0
last_slash (suc c) p = let rest = last_slash c p in if get_or p (suc c) 0 == 47 then suc c else rest

-- The result is `.`, or a place in the path, with the path as it is then.
unfoldable pub basename : Option Bytes → Option (Option (ℕ × Bytes))
unfolding trim_slashes last_slash
basename none = some none
basename (some path) = do
  n ← strlen path
  (if n == 0
      then some none
      else let (c, p) = trim_slashes (n - 1) path in some (some (last_slash c p, p)))

-- The first loop of `itoa`, with fuel for the digits: it does not move `top`.
unfoldable pub count_top : ℕ → ℕ → ℕ → ℕ → Option ℕ
count_top zero n2 top len = none
count_top (suc k) n2 top len =
    let rest = count_top k (n2 / 10) top len in
    if not (n2 == 0) && ltb top (len - 1) then rest else some top

-- The second loop, with the positions from 0 on that are left.
unfoldable pub write_digits : ℕ → ℕ → Bytes → Bytes
write_digits zero n s = s
write_digits (suc top) n s =
    let rest = write_digits top (n / 10) (set s top (48 + n % 10)) in if n == 0 then s else rest

-- For a number that is not negative.
unfoldable pub itoa : ℕ → ℕ → Bytes → Option Bytes
unfolding count_top write_digits
itoa k n s = do
  top ← count_top k n 0 (length s)
  w ← write_at top (0 ∷ []) s
  some (write_digits top n w)

-- What `exit` hands to `exits`: a number of eight bits has three digits at most.
unfoldable pub exit : ℕ → Bytes → Option Bytes
unfolding itoa
exit n s = itoa 4 (n % 256) s
