-- ===== src/Kernel/Name.antt =====
-- src/fs/name.c: the cleaning of a path. A path is its characters without the terminator; the new name
-- is built from its end, so that `curn` is the length of the list.
pub mod Resolve
mod Tests
use yax.Base.{
  ℕ, zero, suc, ◌+◌, Bool, true, false, Option, none, some, List, [], ◌∷◌, ◌++◌, ◌&&◌, ◌||◌, ◌==◌,
  if◌then◌else◌, length,
}
use yax.Codas.Bit.{Bytes}

-- `/` and `.`
abbrev pub slash : ℕ
slash = 47

abbrev pub dot : ℕ
dot = 46

-- Whether the component ends here: `c == '/' || !c`.
abbrev pub at_end : Bytes → Bool
at_end [] = true
at_end (c ∷ s) = c == slash

abbrev pub is_dot : Bytes → Bool
is_dot [] = false
is_dot (c ∷ s) = (c == slash) || ((c == dot) && at_end s)

abbrev pub is_dot_dot : Bytes → Bool
is_dot_dot [] = false
is_dot_dot (c ∷ []) = false
is_dot_dot (c ∷ d ∷ s) = (c == dot) && ((d == dot) && at_end s)

-- The component and the slash behind it are skipped.
unfoldable pub skip_component : Bytes → Bytes
skip_component [] = []
skip_component (c ∷ s) = let rest = skip_component s in if c == slash then s else rest

-- They are copied: what is left of the path, and the new name.
unfoldable pub copy_component : Bytes → Bytes → Bytes × Bytes
copy_component [] out = ([], out)
copy_component (c ∷ s) out =
    let rest = copy_component s (c ∷ out) in if c == slash then (s, c ∷ out) else rest

-- `while(curn > newname && *curn != '/') curn--;`, on the name up to `*curn`.
unfoldable pub back_to_slash : Bytes → Bytes
back_to_slash [] = []
back_to_slash (c ∷ []) = c ∷ []
back_to_slash (c ∷ d ∷ out) =
    let rest = back_to_slash (d ∷ out) in if c == slash then c ∷ d ∷ out else rest

abbrev or_first : Bytes → Bytes → Bytes
or_first [] out = out
or_first (c ∷ s) out = c ∷ s

-- The step back for `..`: at the first slash it stays.
unfoldable pub step_back : Bytes → Bytes
unfolding back_to_slash
step_back [] = []
step_back (c ∷ out) = or_first (back_to_slash out) (c ∷ out)

-- The loop, with fuel: a round for each character is enough.
unfoldable pub clean_from : ℕ → Bytes → Bytes → Option Bytes
clean_from zero name out = none
clean_from (suc k) [] out = some out
clean_from (suc k) (c ∷ s) out =
    let name = c ∷ s in
    let (rest, out') = copy_component name out in
    let skipped = clean_from k (skip_component name) out in
    let stepped = clean_from k (skip_component name) (step_back out) in
    let copied = clean_from k rest out' in
    if is_dot name then skipped else if is_dot_dot name then stepped else copied

unfoldable pub rev_onto : Bytes → Bytes → Bytes
rev_onto [] out = out
rev_onto (c ∷ s) out = rev_onto s (c ∷ out)

-- The new name, from its end.
unfoldable pub clean : Bytes → Bytes → Option Bytes
clean cwd [] = clean_from 1 [] (slash ∷ rev_onto cwd [])
clean cwd (c ∷ s) =
    if c == slash
    then clean_from (length s + 1) s (slash ∷ [])
    else clean_from (length s + 2) (c ∷ s) (slash ∷ rev_onto cwd [])

unfoldable pub nameclean : Bytes → Bytes → Option Bytes
unfolding clean
nameclean cwd name = elim (clean cwd name) [ none ↦ none | some out ↦ some (rev_onto out []) ]
