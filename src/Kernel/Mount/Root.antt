-- ===== src/Kernel/Mount/Root.antt =====
-- src/fs/name.c: the search for a path where only the root is mounted.
use yax.Base.{
  ℕ, zero, suc, ◌<◌, ◌≤◌, ◌≡◌, true, false, Option, none, some, List, [], ◌∷◌, ◌++◌, arith,
  if◌then◌else◌, refl, inl, inr, ◌∙◌, length, length-append,
}
use yax.Codas.Bit.{Bytes}
use yax.Kernel.Name.{slash, nameclean}
use yax.Kernel.Name.Resolve.{NoSlash, AllNoSlash}
use yax.Kernel.Mount.{
  Conn, walked, refused, Devs, Mount, component, skip_slash, find_mount, is_null, Found, found,
  error, onward, fail, walk_step, walks, search_round, getfid_from, vfsgetfid, qideq, conndup,
}
use yax.Kernel.Mount.Search.{Walked-cases}

-- One walk for each component, from a connection on.
abbrev pub walk_all : Devs → List Bytes → Conn → Found
walk_all ds [] c = found (some c)
walk_all ds (x ∷ xs) c = elim (ds.walk c x) [
  | walked inst ino ↦ walk_all ds xs (record c { inst = inst; ino = ino })
  | refused e ↦ error e
]

-- A path of components with a slash behind each, and of what comes behind the last slash.
abbrev pub path : List Bytes → Bytes → Bytes
path [] e = e
path (c ∷ cs) e = c ++ (slash ∷ path cs e)

-- The components of a path, with the one behind the last slash if it is not empty.
abbrev pub parts : List Bytes → Bytes → List Bytes
parts [] [] = []
parts [] (y ∷ ys) = (y ∷ ys) ∷ []
parts (c ∷ cs) e = c ∷ parts cs e

component-end : (c : Bytes) → NoSlash c → component c ≡ (c, [])
unfolding component
component-end [] n = refl
component-end (x ∷ c) n = ground (arith, component-end c n.1)

component-text : (c r : Bytes) → NoSlash c → component (c ++ (slash ∷ r)) ≡ (c, slash ∷ r)
unfolding component
component-text [] r n = refl
component-text (x ∷ c) r n = ground (arith, component-text c r n.1)

walks-text : (c r : Bytes) → walks false (c ++ (slash ∷ r)) ≡ true
walks-text [] r = refl
walks-text (x ∷ c) r = refl

-- The root is mounted at no connection, so that nothing is crossed from one.
abbrev only_root : Conn → List Mount
only_root to = record { from = none; to = to } ∷ []

path-null : (c : Bytes) (cs : List Bytes) (e : Bytes) → is_null (path (c ∷ cs) e) ≡ false
path-null [] cs e = refl
path-null (x ∷ c) cs e = refl

walk_step-last :
    (ds : Devs) (c : Conn) (prevm : Option Conn)
    → walk_step ds false [] [] (some c) prevm ≡ onward (some c)
unfolding walk_step
walk_step-last ds c prevm = refl

walk_step-text :
    (ds : Devs) (x r : Bytes) (c : Conn) (prevm : Option Conn)
    → NoSlash x
    → walk_step ds false (x ++ (slash ∷ r)) [] (some c) prevm ≡ elim (ds.walk c x) [
      | walked inst ino ↦ onward (some (record c { inst = inst; ino = ino }))
      | refused e ↦ fail e
    ]
unfolding walk_step
walk_step-text ds x r c prevm n = rw (walks-text x r) (rw (component-text x r n) refl)

walk_step-end :
    (ds : Devs) (y : ℕ) (ys : Bytes) (c : Conn) (prevm : Option Conn)
    → NoSlash (y ∷ ys)
    → walk_step ds false (y ∷ ys) [] (some c) prevm ≡ elim (ds.walk c (y ∷ ys)) [
      | walked inst ino ↦ onward (some (record c { inst = inst; ino = ino }))
      | refused e ↦ fail e
    ]
unfolding walk_step
walk_step-end ds y ys c prevm n = rw (component-end (y ∷ ys) n) refl

-- A round that does not cross a mount.
round-inner :
    (ds : Devs) (sname name : Bytes) (to c : Conn)
    → search_round ds sname false name (only_root to) (some c)
      ≡ walk_step ds false name [] (some c) none
unfolding search_round find_mount qideq
round-inner ds sname name to c = refl

getfid_from-onward :
    (k : ℕ) (ds : Devs) (to : Conn) (sname name : Bytes) (m c : Option Conn)
    → search_round ds sname false name (only_root to) m ≡ onward c
    → getfid_from (suc k) ds (only_root to) sname false name [] m ≡ (
        let rest = skip_slash (component name).1 in
        if is_null rest then found c else getfid_from k ds (only_root to) sname false rest [] c)
unfolding getfid_from
getfid_from-onward k ds to sname name m c e = rw (e, getfid_from) refl

getfid_from-fail :
    (k e : ℕ) (ds : Devs) (to : Conn) (sname name : Bytes) (m : Option Conn)
    → search_round ds sname false name (only_root to) m ≡ fail e
    → getfid_from (suc k) ds (only_root to) sname false name [] m ≡ error e
unfolding getfid_from
getfid_from-fail k e ds to sname name m r = rw (r, getfid_from) refl

last_or_next :
    (k : ℕ) (ds : Devs) (to : Conn) (sname : Bytes) (cs : List Bytes) (e : Bytes) (c : Conn)
    → getfid_from k ds (only_root to) sname false (path cs e) [] (some c)
      ≡ walk_all ds (parts cs e) c
    → (if is_null (path cs e)
        then found (some c)
        else getfid_from k ds (only_root to) sname false (path cs e) [] (some c))
      ≡ walk_all ds (parts cs e) c
last_or_next k ds to sname [] [] c h = refl
last_or_next k ds to sname [] (y ∷ ys) c h = h
last_or_next k ds to sname (x ∷ cs) e c h = rw (path-null x cs e) h

-- The last step, over a component without a slash behind it.
getfid_from-end :
    (k : ℕ) (ds : Devs) (to : Conn) (sname : Bytes) (y : ℕ) (ys : Bytes) (m : Option Conn)
    (c : Conn)
    → NoSlash (y ∷ ys)
    → search_round ds sname false (y ∷ ys) (only_root to) m
      ≡ walk_step ds false (y ∷ ys) [] (some c) none
    → getfid_from (suc k) ds (only_root to) sname false (y ∷ ys) [] m
      ≡ walk_all ds ((y ∷ ys) ∷ []) c
getfid_from-end k ds to sname y ys m c n r =
    let w = r ∙ walk_step-end ds y ys c none n in
    elim (Walked-cases (ds.walk c (y ∷ ys))) [
      | inl (i, j, h) ↦
          let c' : Conn = record c { inst = i; ino = j } in
          let on : search_round ds sname false (y ∷ ys) (only_root to) m ≡ onward (some c') =
            w ∙ (rw h refl) in
          getfid_from-onward k ds to sname (y ∷ ys) m (some c') on
          ∙ (rw (component-end (y ∷ ys) n) (rw (h, walk_all) refl))
      | inr (e, h) ↦
          let stop : search_round ds sname false (y ∷ ys) (only_root to) m ≡ fail e =
            w ∙ (rw h refl) in
          getfid_from-fail k e ds to sname (y ∷ ys) m stop ∙ (rw (h, walk_all) refl)
    ]

-- The step over a component, from a round that walks to it.
getfid_from-step :
    (k : ℕ) (ds : Devs) (to : Conn) (sname x : Bytes) (cs : List Bytes) (e : Bytes)
    (m : Option Conn) (c : Conn)
    → NoSlash x
    → search_round ds sname false (path (x ∷ cs) e) (only_root to) m
      ≡ walk_step ds false (path (x ∷ cs) e) [] (some c) none
    → ((inst ino : ℕ)
        → getfid_from k ds
            (only_root to)
            sname
            false
            (path cs e)
            []
            (some (record c { inst = inst; ino = ino }))
          ≡ walk_all ds (parts cs e) (record c { inst = inst; ino = ino }))
    → getfid_from (suc k) ds (only_root to) sname false (path (x ∷ cs) e) [] m
      ≡ walk_all ds (x ∷ parts cs e) c
getfid_from-step k ds to sname x cs e m c n r next =
    let w = r ∙ walk_step-text ds x (path cs e) c none n in
    elim (Walked-cases (ds.walk c x)) [
      | inl (i, j, h) ↦
          let c' : Conn = record c { inst = i; ino = j } in
          let on : search_round ds sname false (path (x ∷ cs) e) (only_root to) m
              ≡ onward (some c') =
            w ∙ (rw h refl) in
          let go = getfid_from-onward k ds to sname (path (x ∷ cs) e) m (some c') on in
          go
          ∙ (rw (component-text x (path cs e) n)
              (rw (h, walk_all) (last_or_next k ds to sname cs e c' (next i j))))
      | inr (err, h) ↦
          let stop : search_round ds sname false (path (x ∷ cs) e) (only_root to) m ≡ fail err =
            w ∙ (rw h refl) in
          getfid_from-fail k err ds to sname (path (x ∷ cs) e) m stop ∙ (rw (h, walk_all) refl)
    ]

getfid_from-walk_all :
    (k : ℕ) (ds : Devs) (to : Conn) (sname : Bytes) (cs : List Bytes) (e : Bytes) (c : Conn)
    → AllNoSlash cs
    → NoSlash e
    → length cs < k
    → getfid_from k ds (only_root to) sname false (path cs e) [] (some c)
      ≡ walk_all ds (parts cs e) c
unfolding component
getfid_from-walk_all zero ds to sname cs e c n o h = absurd (omega arith)
getfid_from-walk_all (suc k) ds to sname [] [] c n o h =
    getfid_from-onward k ds to sname [] (some c) (some c)
      (round-inner ds sname [] to c ∙ walk_step-last ds c none)
getfid_from-walk_all (suc k) ds to sname [] (y ∷ ys) c n o h =
    getfid_from-end k ds to sname y ys (some c) c o (round-inner ds sname (y ∷ ys) to c)
getfid_from-walk_all (suc k) ds to sname (x ∷ cs) e c n o h =
    getfid_from-step k ds to sname x cs e (some c) c n.0
      (round-inner ds sname (path (x ∷ cs) e) to c)
      (λ i j.
        getfid_from-walk_all k ds to sname cs e (record c { inst = i; ino = j }) n.1 o
          (omega arith))

-- The first round crosses the mount of the root.
round-first :
    (ds : Devs) (sname name : Bytes) (to c : Conn)
    → conndup ds to sname ≡ some c
    → search_round ds sname false name (only_root to) none
      ≡ walk_step ds false name [] (some c) none
unfolding search_round find_mount qideq
round-first ds sname name to c e = rw (e, search_round) refl

length-path : (cs : List Bytes) (e : Bytes) → length cs ≤ length (path cs e)
length-path [] e = omega arith
length-path (c ∷ cs) e = omega (arith, length-path cs e, length-append c (slash ∷ path cs e))

-- Where nothing but the root is mounted, and its device gives a copy of it, the search for a path gives
-- what walking from that copy to one component after the other gives, the error of the first walk that
-- fails included, for a path that is cleaned to these components, which have no slash in them: each of
-- `cs` with a slash behind it, and behind the last slash `e`, which may be empty, as in the name of a
-- directory or of the root.
pub vfsgetfid-walk_all :
    (ds : Devs) (to c : Conn) (cwd name : Bytes) (cs : List Bytes) (e : Bytes)
    → AllNoSlash cs
    → NoSlash e
    → nameclean cwd name ≡ some (slash ∷ path cs e)
    → conndup ds to (slash ∷ path cs e) ≡ some c
    → vfsgetfid ds (record { from = none; to = to } ∷ []) cwd name false
      ≡ walk_all ds (parts cs e) c
unfolding vfsgetfid component
vfsgetfid-walk_all ds to c cwd name [] [] n o h d =
    rw (h, vfsgetfid)
      (getfid_from-onward _ ds to (slash ∷ []) [] none (some c)
        (round-first ds (slash ∷ []) [] to c d ∙ walk_step-last ds c none))
vfsgetfid-walk_all ds to c cwd name [] (y ∷ ys) n o h d =
    rw (h, vfsgetfid)
      (getfid_from-end _ ds to (slash ∷ y ∷ ys) y ys none c o
        (round-first ds (slash ∷ y ∷ ys) (y ∷ ys) to c d))
vfsgetfid-walk_all ds to c cwd name (x ∷ cs) e n o h d =
    let enough = length-path cs e in
    let size = length-append x (slash ∷ path cs e) in
    rw (h, vfsgetfid)
      (getfid_from-step _ ds to (slash ∷ path (x ∷ cs) e) x cs e none c n.0
        (round-first ds (slash ∷ path (x ∷ cs) e) (path (x ∷ cs) e) to c d)
        (λ i j.
          getfid_from-walk_all _ ds to (slash ∷ path (x ∷ cs) e) cs e
            (record c { inst = i; ino = j }) n.1 o (omega arith)))
