-- ===== src/Drivers/Cons/Screen.antt =====
-- drivers/cons.c: every write stays on the screen, and what it leaves there.
use yax.Base.{
  ℕ, zero, suc, ◌+◌, ◌-◌, ◌%◌, ◌<◌, ◌≤◌, ◌≡◌, refl, false, Option, none, some, [], ◌∷◌, ◌++◌, ◌>>=◌,
  ap₂, map, ◌≢◌, append_assoc, ltb, ◌==◌, ◌&&◌, set, length, take, drop, arith, Bool-cases, inl,
  inr, length-append, length-take, length-drop, length-set, sym, ◌∙◌, has_bit, ap, map, ◌≢◌,
  append_assoc,
}
use yax.Base.Int.{pos}
use yax.Codas.Bit.{Bytes}
use yax.Codes.{o_wronly, m_swrite}
use yax.Yaxfs.Fid.{Fid}
use yax.Yaxfs.Dofunc.{Req}
use yax.Drivers.Cons.{
  cells, last_row, Cell, Screen, cell, Cons, put_cell, clear, scroll, move_up, put_char, put_chars,
  put_from, rem, cons_write,
}

-- A result on a whole screen, at a position up to a bound.
abbrev Within : ℕ → Option (ℕ × Screen) → Type 0
Within n none = ⊥
Within n (some (a, v)) = (a < n) × (length v ≡ cells)

Within-some :
    (n : ℕ) (o : Option (ℕ × Screen))
    → Within n o
    → (a : ℕ) × (v : Screen) × (o ≡ some (a, v)) × (a < n) × (length v ≡ cells)
Within-some n none h = absurd h
Within-some n (some (a, v)) h = (a, v, refl, h.0, h.1)

-- The loop comes to its end, which may lie behind the screen, or to the screen's end.
clear-Within :
    (k end a : ℕ) (v : Screen)
    → length v ≡ cells
    → a ≤ cells
    → a ≤ end
    → end < a + k
    → Within (suc cells) (clear k end a v)
unfolding clear
clear-Within zero end a v e l m h = absurd (omega arith)
clear-Within (suc k) end a v e l m h = elim (Bool-cases (ltb a cells && ltb a end)) [
  | inr c ↦ rw (clear, c) (omega arith, e)
  | inl c ↦
      let put : put_cell a (cell 32) v ≡ some (set v a (cell 32)) =
        unfold put_cell in ground arith in
      rw (clear, c, put)
        (clear-Within k end (a + 1) (set v a (cell 32)) (length-set v a (cell 32) ∙ e)
          (ground arith) (ground arith) (omega arith))
]

put_cell-set : (a : ℕ) (c : Cell) (v : Screen) → a < cells → put_cell a c v ≡ some (set v a c)
unfolding put_cell
put_cell-set a c v h = ground arith

length-move_up :
    (row rest : ℕ) (v : Screen) → length v ≡ row + rest → length (move_up row rest v) ≡ row + rest
unfolding move_up
length-move_up row rest v e = omega (
  arith,
  length-append (take rest (drop row v)) (drop rest v),
  length-take rest (drop row v),
  length-drop row v,
  length-drop rest v,
)

scroll-Within : (a : ℕ) (v : Screen) → length v ≡ cells → a < suc cells → Within cells (scroll a v)
unfolding scroll
scroll-Within a v e l = elim (Bool-cases (a == cells)) [
  | inr c ↦ rw c (ground arith, e)
  | inl c ↦
      let up = move_up 80 last_row v in
      let up_length : length up ≡ cells = length-move_up 80 last_row v e in
      let (b, w, r, m, n) =
        Within-some (suc cells) (clear 81 cells last_row up)
          (clear-Within 81 cells last_row up up_length (omega arith) (omega arith) (omega arith)) in
      rw (c, r) (omega arith, n)
]

put_char-Within :
    (c a : ℕ) (v : Screen) → length v ≡ cells → a < cells → Within (suc cells) (put_char c a v)
unfolding put_char
put_char-Within c a v e l = elim (Bool-cases (c == 10)) [
  | inl p ↦ rw p (clear-Within 81 (a + 80 - a % 80) a v e (omega arith) (omega arith) (omega arith))
  | inr p ↦ elim (Bool-cases (c == 8)) [
    | inl q ↦
        rw (p, q, put_cell-set (a - 1) (cell 32) v (omega arith))
          (omega arith, length-set v (a - 1) (cell 32) ∙ e)
    | inr q ↦ elim (Bool-cases (c == 9)) [
      | inl r ↦
          rw (p, q, r)
            (clear-Within 9 (a + 8 - a % 8) a v e (omega arith) (omega arith) (omega arith))
      | inr r ↦ rw (p, q, r, put_cell-set a (cell c) v l) (omega arith, length-set v a (cell c) ∙ e)
    ]
  ]
]

put_chars-Within :
    (cs : Bytes) (a : ℕ) (v : Screen)
    → length v ≡ cells
    → a < cells
    → Within cells (put_chars cs a v)
unfolding put_chars
put_chars-Within [] a v e l = (l, e)
put_chars-Within (c ∷ cs) a v e l =
    let (b, w, r, m, n) = Within-some (suc cells) (put_char c a v) (put_char-Within c a v e l) in
    let (b', w', r', m', n') = Within-some cells (scroll b w) (scroll-Within b w n m) in
    rw (r, r') (put_chars-Within cs b' w' n' m')

put_from-Within :
    (cs : Bytes) (a : ℕ) (v : Screen)
    → length v ≡ cells
    → a < cells
    → (b : ℕ) × (w : Screen) × (put_from cs (pos a) v ≡ some (pos b, w))
      × (b < cells)
      × (length w ≡ cells)
unfolding put_from
put_from-Within cs a v e l =
    let (b, w, r, m, n) = Within-some cells (put_chars cs a v) (put_chars-Within cs a v e l) in
    (b, w, ap (λ o. o >>= (λ x. some (pos (x.0), x.1))) r, m, n)

-- The position in the file, which stays on the screen.
abbrev pub OnScreen : Option (Option Fid × Req × Cons) → Type 0
OnScreen none = ⊥
OnScreen (some (none, r, d)) = ⊥
OnScreen (some (some fid, r, d)) =
    ((m : ℕ) × (fid.off ≡ pos m) × (m < cells)) × (length d.vga ≡ cells)

rem-pos : (n m : ℕ) → rem (pos n) m ≡ pos (n % m)
unfolding rem
rem-pos n m = refl

-- A write through an open file, whose position is on the screen, to a position that is not negative,
-- is answered without an access outside of the screen, whatever its bytes are and however often the
-- screen moves; the position stays on the screen, which keeps its cells.
pub cons_write-OnScreen :
    (fid : Fid) (r : Req) (d : Cons) (m n : ℕ)
    → fid.off ≡ pos m
    → m < cells
    → r.off ≡ pos n
    → length d.vga ≡ cells
    → OnScreen (cons_write (some fid) r d)
unfolding cons_write
cons_write-OnScreen fid r d m n e l f h = elim (Bool-cases (has_bit fid.omode o_wronly)) [
  | inr c ↦ rw c ((m, e, l), h)
  | inl c ↦ elim (Bool-cases (fid.file == 0)) [
    | inl g ↦ rw (c, g) ((m, e, l), h)
    | inr g ↦ elim (Bool-cases (r.fn == m_swrite)) [
      | inl s ↦
          let (a, v, q, b, t) =
            put_from-Within (take r.len r.buf) (m % last_row) d.vga h (omega arith) in
          rw (c, g, s, e, rem-pos m last_row, q) ((a, refl, b), t)
      | inr s ↦
          let (a, v, q, b, t) =
            put_from-Within (take r.len r.buf) (n % last_row) d.vga h (omega arith) in
          rw (c, g, s, f, rem-pos n last_row, q) ((m, e, l), t)
    ]
  ]
]

-- Characters other than the three that move.
abbrev pub IsText : Bytes → Type 0
IsText [] = Unit {0}
IsText (c ∷ cs) = ((c ≢ 8) × (c ≢ 9) × (c ≢ 10)) × IsText cs

set-middle :
    (xs : Screen) (y z : Cell) (ys : Screen) → set (xs ++ (y ∷ ys)) (length xs) z ≡ xs ++ (z ∷ ys)
set-middle [] y z ys = refl
set-middle (x ∷ xs) y z ys = ap (λ t. x ∷ t) (set-middle xs y z ys)

put_char-text :
    (c : ℕ) (pre : Screen) (y : Cell) (ys : Screen)
    → (c ≢ 8) × (c ≢ 9) × (c ≢ 10)
    → length pre < cells
    → put_char c (length pre) (pre ++ (y ∷ ys)) ≡ some (length pre + 1, pre ++ (cell c ∷ ys))
unfolding put_char
put_char-text c pre y ys (n8, n9, n10) h =
    let b8 : (c == 8) ≡ false = ground arith in
    let b9 : (c == 9) ≡ false = ground arith in
    let b10 : (c == 10) ≡ false = ground arith in
    rw
      (
        b10,
        b8,
        b9,
        put_cell-set (length pre) (cell c) (pre ++ (y ∷ ys)) h,
        set-middle pre y (cell c) ys,
      )
      refl

scroll-stays : (a : ℕ) (v : Screen) → a < cells → scroll a v ≡ some (a, v)
unfolding scroll
scroll-stays a v h = let n : (a == cells) ≡ false = ground arith in rw n refl

-- Text that ends before the last cell of the screen takes the place of as many cells, in its order, and
-- leaves the cells before and behind them as they were; the position moves behind it.
pub put_chars-text :
    (cs : Bytes) (pre old post : Screen)
    → IsText cs
    → length old ≡ length cs
    → length pre + length cs < cells
    → put_chars cs (length pre) (pre ++ (old ++ post))
      ≡ some (length pre + length cs, pre ++ (map cell cs ++ post))
unfolding put_chars
put_chars-text [] pre [] post t e h = ap (λ n. some (n, pre ++ post)) (omega arith)
put_chars-text [] pre (y ∷ old) post t e h = absurd (omega arith)
put_chars-text (c ∷ cs) pre [] post t e h = absurd (omega arith)
put_chars-text (c ∷ cs) pre (y ∷ old) post ((n8, n9, n10), t) e h =
    let pre' = pre ++ (cell c ∷ []) in
    let len : length pre' ≡ length pre + 1 = length-append pre (cell c ∷ []) in
    let joins : (zs : Screen) → pre' ++ zs ≡ pre ++ (cell c ∷ zs) =
      λ zs. append_assoc pre (cell c ∷ []) zs in
    let rest = put_chars-text cs pre' old post t (omega arith) (omega (arith, len)) in
    rw
      (
        put_char-text c pre y (old ++ post) (n8, n9, n10) (omega arith),
        scroll-stays (length pre + 1) (pre ++ (cell c ∷ (old ++ post))) (omega arith),
      )
      (ap₂ (λ a v. put_chars cs a v) (sym len) (sym (joins (old ++ post)))
        ∙ rest
        ∙ ap₂ (λ a v. some (a, v)) (omega (arith, len)) (joins (map cell cs ++ post)))
