-- ===== src/Kernel/Name/Resolve.antt =====
-- The cleaning of a path against the components that it names.
use yax.Base.{
  ◌∙◌, ℕ, zero, suc, ◌+◌, ◌<◌, ◌≡◌, ◌≢◌, refl, Bool, true, false, some, List, [], ◌∷◌, ◌++◌, ◌&&◌,
  ◌==◌, if◌then◌else◌, length, arith, length-append,
}
use yax.Codas.Bit.{Bytes}
use yax.Kernel.Name.{
  slash, dot, at_end, is_dot_dot, skip_component, copy_component, back_to_slash, step_back,
  clean_from, rev_onto, clean, nameclean,
}

-- A component: no slash in it.
abbrev pub NoSlash : Bytes → Type 0
NoSlash [] = Unit {0}
NoSlash (c ∷ s) = (c ≢ slash) × NoSlash s

abbrev pub AllNoSlash : List Bytes → Type 0
AllNoSlash [] = Unit {0}
AllNoSlash (c ∷ cs) = NoSlash c × AllNoSlash cs

-- The components, each with a slash behind it.
abbrev pub text : List Bytes → Bytes
text [] = []
text (c ∷ cs) = c ++ (slash ∷ text cs)

abbrev drop_last : List Bytes → List Bytes
drop_last [] = []
drop_last (c ∷ st) = st

-- What a component does to the directories that the path has come through, the last one first: an empty
-- one and `.` nothing, `..` leaves the last one, any other enters one.
abbrev pub enter : Bytes → List Bytes → List Bytes
enter [] st = st
enter (c ∷ s) st =
    if (c == dot) && at_end s then st else if is_dot_dot (c ∷ s) then drop_last st else (c ∷ s) ∷ st

abbrev pub resolve : List Bytes → List Bytes → List Bytes
resolve st [] = st
resolve st (c ∷ cs) = resolve (enter c st) cs

-- The absolute name of a directory, from its end, with a slash behind it.
abbrev pub render : List Bytes → Bytes
render [] = slash ∷ []
render (c ∷ st) = slash ∷ rev_onto c (render st)

skip-text : (c : Bytes) (r : Bytes) → NoSlash c → skip_component (c ++ (slash ∷ r)) ≡ r
unfolding skip_component
skip-text [] r n = ground arith
skip-text (x ∷ c) r n = ground (arith, skip-text c r n.1)

copy-text :
    (c r out : Bytes)
    → NoSlash c
    → copy_component (c ++ (slash ∷ r)) out ≡ (r, slash ∷ rev_onto c out)
unfolding copy_component rev_onto
copy-text [] r out n = ground arith
copy-text (x ∷ c) r out n = ground (arith, copy-text c r (x ∷ out) n.1)

back-rev :
    (c : Bytes) (y : ℕ) (out : Bytes)
    → NoSlash c
    → back_to_slash (rev_onto c (y ∷ out)) ≡ back_to_slash (y ∷ out)
unfolding back_to_slash rev_onto
back-rev [] y out n = refl
back-rev (x ∷ c) y out n =
    let pass : back_to_slash (x ∷ y ∷ out) ≡ back_to_slash (y ∷ out) = ground arith in
    back-rev c x (y ∷ out) n.1 ∙ pass

back-slash : (out : Bytes) → back_to_slash (slash ∷ out) ≡ slash ∷ out
unfolding back_to_slash
back-slash [] = refl
back-slash (c ∷ out) = ground arith

-- `..` leaves the last directory.
step_back-render : (st : List Bytes) → AllNoSlash st → step_back (render st) ≡ render (drop_last st)
unfolding step_back
step_back-render [] n = refl
step_back-render (c ∷ []) n = rw (back-rev c slash [] n.0, back-slash []) refl
step_back-render (c ∷ d ∷ st) n =
    let under = rev_onto d (render st) in rw (back-rev c slash under n.0, back-slash under) refl

at_end-text : (s r : Bytes) → at_end (s ++ (slash ∷ r)) ≡ at_end s
at_end-text [] r = refl
at_end-text (c ∷ s) r = refl

is_dot_dot-text : (x : ℕ) (s r : Bytes) → is_dot_dot ((x ∷ s) ++ (slash ∷ r)) ≡ is_dot_dot (x ∷ s)
is_dot_dot-text x [] r = ground arith
is_dot_dot-text x (y ∷ s) r = ground (arith, at_end-text s r)

-- One round of the loop takes one component.
clean_from-enter :
    (k : ℕ) (c r : Bytes) (st : List Bytes)
    → NoSlash c
    → AllNoSlash st
    → clean_from (suc k) (c ++ (slash ∷ r)) (render st) ≡ clean_from k r (render (enter c st))
unfolding clean_from
clean_from-enter k [] r st n a = ground (arith, skip-text [] r n)
clean_from-enter k (x ∷ s) r st n a = ground (
  arith,
  skip-text (x ∷ s) r n,
  copy-text (x ∷ s) r (render st) n,
  step_back-render st a,
  at_end-text s r,
  is_dot_dot-text x s r,
)

AllNoSlash-if :
    (b : Bool) (st sts : List Bytes)
    → AllNoSlash st
    → AllNoSlash sts
    → AllNoSlash (if b then st else sts)
AllNoSlash-if true st sts n a = n
AllNoSlash-if false st sts n a = a

enter-AllNoSlash :
    (c : Bytes) (st : List Bytes) → NoSlash c → AllNoSlash st → AllNoSlash (enter c st)
enter-AllNoSlash [] st n a = a
enter-AllNoSlash (x ∷ s) [] n a =
    AllNoSlash-if ((x == dot) && at_end s) [] (if is_dot_dot (x ∷ s) then [] else (x ∷ s) ∷ []) tt
      (AllNoSlash-if (is_dot_dot (x ∷ s)) [] ((x ∷ s) ∷ []) tt (n, tt))
enter-AllNoSlash (x ∷ s) (d ∷ st) n a =
    AllNoSlash-if ((x == dot) && at_end s) (d ∷ st)
      (if is_dot_dot (x ∷ s) then st else (x ∷ s) ∷ d ∷ st) a
      (AllNoSlash-if (is_dot_dot (x ∷ s)) st ((x ∷ s) ∷ d ∷ st) a.1 (n, a))

clean_from-resolve :
    (k : ℕ) (cs st : List Bytes)
    → AllNoSlash cs
    → AllNoSlash st
    → length (text cs) < k
    → clean_from k (text cs) (render st) ≡ some (render (resolve st cs))
unfolding clean_from
clean_from-resolve zero cs st n a h = absurd (omega arith)
clean_from-resolve (suc k) [] st n a h = refl
clean_from-resolve (suc k) (c ∷ cs) st n a h =
    let more : length (text cs) < k = omega (arith, length-append c (slash ∷ text cs)) in
    clean_from-enter k c (text cs) st n.0 a
    ∙ clean_from-resolve k cs (enter c st) n.1 (enter-AllNoSlash c st n.0 a) more

nameclean-clean :
    (cwd name out : Bytes) → clean cwd name ≡ some out → nameclean cwd name ≡ some (rev_onto out [])
unfolding nameclean
nameclean-clean cwd name out e = ground arith

-- An absolute path, given by its components with a slash behind each, is cleaned to the absolute name
-- of the directory that the components lead to from the root: empty ones and `.` stay, `..` goes to the
-- parent, and at the root stays there.
pub nameclean-resolve :
    (cwd : Bytes) (cs : List Bytes)
    → AllNoSlash cs
    → nameclean cwd (slash ∷ text cs) ≡ some (rev_onto (render (resolve [] cs)) [])
unfolding clean
nameclean-resolve cwd cs n =
    nameclean-clean cwd (slash ∷ text cs) (render (resolve [] cs))
      (clean_from-resolve (length (text cs) + 1) cs [] n tt (omega arith))
