-- ===== src/Drivers/Cons.antt =====
-- drivers/cons.c: the console, a file server for the text screen and the keyboard. The screen is
-- the list of its cells, a character and an attribute each. `none` is an access outside of the screen,
-- the key map or the pool of fids, or through a null fid.
pub mod Screen
mod Tests
use yax.Base.{
  ℕ, zero, suc, ◌+◌, ◌-◌, ◌*◌, ◌/◌, ◌%◌, ◌^◌, Bool, true, false, not, Option, none, some, List, [],
  ◌∷◌, ◌++◌, ◌>>=◌, ltb, ◌==◌, ◌&&◌, ◌||◌, if◌then◌else◌, has_bit, set, get_elem?, length, take,
  drop, replicate,
}
use yax.Base.Int.{ℤ, pos, negsuc, neg, ◌+ℤ◌, is_neg}
use yax.Codes.{eacces, ebadf, m_sread, m_swrite, m_seek, m_pread, m_pwrite, o_wronly}
use yax.Codas.Bit.{Bytes}
use yax.Yaxfs.Fid.{Fid, Fidpool, fid_lookup}
use yax.Yaxfs.File.{Files, dirreadents, entries}
use yax.Yaxfs.Dofunc.{Req, Func, After, Served, dofunc, fail, done}

abbrev pub cells : ℕ
cells = 80 * 25

abbrev pub last_row : ℕ
last_row = 80 * 24

pub record Cell : Type 0 where
  pub char : ℕ
  pub attribute : ℕ

abbrev pub Screen : Type 0
Screen = List Cell

-- White on black.
abbrev pub cell : ℕ → Cell
cell c = record { char = c; attribute = 7 }

-- The screen, and the last bytes that the cursor registers 15 and 14 were given.
pub record Cons : Type 0 where
  pub vga : Screen
  pub cursor_low : ℕ
  pub cursor_high : ℕ

unfoldable pub put_cell : ℕ → Cell → Screen → Option Screen
put_cell a c v = if ltb a cells then some (set v a c) else none

-- The loops that clear the cells up to `end`, with fuel, and the position where they end.
unfoldable pub clear : ℕ → ℕ → ℕ → Screen → Option (ℕ × Screen)
clear zero end a v = none
clear (suc k) end a v = elim (ltb a cells && ltb a end) [
  | false ↦ some (a, v)
  | true ↦ elim (put_cell a (cell 32) v) [ none ↦ none | some w ↦ clear k end (a + 1) w ]
]

-- `memmove` of all cells but the first `row` to the front; the rest stays.
unfoldable pub move_up : ℕ → ℕ → Screen → Screen
move_up row rest v = take rest (drop row v) ++ drop rest v

-- The rows move up by one, and the last one is cleared.
unfoldable pub scroll : ℕ → Screen → Option (ℕ × Screen)
scroll a v =
    if not (a == cells)
    then some (a, v)
    else elim (clear 81 cells last_row (move_up 80 last_row v)) [
      | none ↦ none
      | some (b, w) ↦ some (last_row, w)
    ]

-- What one character does at a position, before the screen moves.
unfoldable pub put_char : ℕ → ℕ → Screen → Option (ℕ × Screen)
put_char c a v =
    if c == 10
    then clear 81 (a + 80 - a % 80) a v
    else if c == 8
    then (do w ← put_cell (a - 1) (cell 32) v; some (a - 1, w))
    else if c == 9
    then clear 9 (a + 8 - a % 8) a v
    else (do w ← put_cell a (cell c) v; some (a + 1, w))

-- The loop over the bytes.
unfoldable pub put_chars : Bytes → ℕ → Screen → Option (ℕ × Screen)
put_chars [] a v = some (a, v)
put_chars (c ∷ cs) a v = do (b, w) ← put_char c a v; (b', w') ← scroll b w; put_chars cs b' w'

-- C's remainder, which has the sign of the dividend.
unfoldable pub rem : ℤ → ℕ → ℤ
rem (pos n) m = pos (n % m)
rem (negsuc n) m = if suc n % m == 0 then pos 0 else neg (suc n % m)

-- From a negative position only a backspace stays on the screen.
unfoldable pub put_from : Bytes → ℤ → Screen → Option (ℤ × Screen)
put_from cs (pos a) v = do (b, w) ← put_chars cs a v; some (pos b, w)
put_from [] (negsuc a) v = some (negsuc a, v)
put_from (c ∷ cs) (negsuc a) v =
    if not (c == 8)
    then none
    else (do w ← put_cell 0 (cell 32) v; (b, w') ← put_chars cs 0 w; some (pos b, w'))

-- The low 32 bits of a position.
abbrev word_of : ℤ → ℕ
word_of (pos n) = n % 2 ^ 32
word_of (negsuc n) = 2 ^ 32 - 1 - n % 2 ^ 32

unfoldable pub cons_write : Option Fid → Req → Cons → Option (Option Fid × Req × Cons)
cons_write none r d = some (none, record r { ret = neg ebadf }, d)
cons_write (some fid) r d =
    let r' = (if r.fn == m_swrite then record r { off = fid.off } else r) in
    if not (has_bit fid.omode o_wronly)
    then some (some fid, record r { ret = neg ebadf }, d)
    else if fid.file == 0
    then some (some fid, record r { ret = neg eacces }, d)
    else (do
      (a, v) ← put_from (take r.len r.buf) (rem r'.off last_row) d.vga
      let at = word_of (rem a cells) in
          if r.fn == m_swrite
          then some (
            some (record fid { off = a }),
            record r' { ret = pos r.len },
            record d { vga = v; cursor_low = at % 256; cursor_high = (at / 2 ^ 8) % 256 },
          )
          else some (some fid, record r' { ret = pos r.len }, record d { vga = v }))

-- The characters of the keys, in a Dvorak layout.
abbrev pub key_map : List ℕ
key_map =
    0 ∷ 27 ∷ 49 ∷ 50 ∷ 51 ∷ 52 ∷ 53 ∷ 54 ∷ 55 ∷ 56 ∷ 57 ∷ 48 ∷ 91 ∷ 93 ∷ 8 ∷ 9 ∷ 39 ∷ 44 ∷ 46 ∷ 112
    ∷ 121 ∷ 102 ∷ 103 ∷ 99 ∷ 114 ∷ 108 ∷ 47 ∷ 61 ∷ 10 ∷ 0 ∷ 97 ∷ 111 ∷ 101 ∷ 117 ∷ 105 ∷ 100 ∷ 104
    ∷ 116 ∷ 110 ∷ 115 ∷ 45 ∷ 92 ∷ 0 ∷ 60 ∷ 59 ∷ 113 ∷ 106 ∷ 107 ∷ 120 ∷ 98 ∷ 109 ∷ 119 ∷ 118 ∷ 122
    ∷ 0 ∷ 0 ∷ 0 ∷ 32 ∷ []

-- The loop over the bytes of the keyboard's port; the test lets the map's length through.
unfoldable pub keys_from : List ℕ → Option Bytes
keys_from [] = some []
keys_from (c ∷ cs) = do
  rest ← keys_from cs
  if ltb (length key_map) c then some rest else elim (get_elem? key_map c) [
    | none ↦ none
    | some k ↦ some (if k == 0 then rest else k ∷ rest)
  ]

-- What a read of the interrupt file gives: an error, or the bytes of so many interrupts.
pub data Irq : Type 0 where
  failed : ℤ → Irq
  keys : List ℕ → Irq

-- A read ends with a result and the bytes, or waits for more interrupts.
pub data Keyed : Type 0 where
  keyed : ℤ → Bytes → Keyed
  waits : Keyed
  outside : Keyed

-- The loop until there is a character; the length that was asked for is not looked at.
unfoldable pub read_keys : List Irq → Keyed
read_keys [] = waits
read_keys (failed e ∷ is) = keyed e []
read_keys (keys cs ∷ is) = elim (keys_from cs) [
  | none ↦ outside
  | some ks ↦ elim ks [ [] ↦ read_keys is | k ∷ more ↦ keyed (pos (length (k ∷ more))) (k ∷ more) ]
]

pub data ConsRead : Type 0 where
  reads : Fid → Req → ConsRead
  sleeps : ConsRead
  faults : ConsRead

unfoldable pub cons_read : Files → List Irq → Option Fid → Req → ConsRead
cons_read fs is none r = faults
cons_read fs is (some fid) r =
    if fid.file == 0
    then (elim (dirreadents fs fid.file fid.dirread r.len) [
      | entries bs c ↦
          reads (record fid { dirread = c }) (record r { ret = pos (length bs); out = bs })
      | _ ↦ faults
    ])
    else elim (read_keys is) [
      | keyed n bs ↦ reads fid (record r { ret = n; out = bs })
      | waits ↦ sleeps
      | outside ↦ faults
    ]

unfoldable pub cons_seek : Option Fid → Req → Option Fid × Req
cons_seek none r = (none, record r { ret = neg ebadf })
cons_seek (some fid) r =
    let off =
      (if r.submsg == 0
        then r.off
        else if r.submsg == 1
        then fid.off +ℤ r.off
        else if r.submsg == 2
        then pos cells +ℤ r.off
        else fid.off) in
    if fid.omode == 0
    then (some fid, record r { ret = neg ebadf })
    else (some (record fid { off = rem off cells }), record r { ret = rem off cells })

-- The loop that clears the screen at the start, on whatever the screen held.
unfoldable pub cons_start : Screen → Option Cons
cons_start v = do
  (a, w) ← clear (suc cells) cells 0 v
  some (record { vga = w; cursor_low = 0; cursor_high = 0 })

-- What a round of the server ends in: the answer, or a wait for the keyboard.
pub data ConsRound : Type 0 where
  answers : Req → Fidpool → Cons → ConsRound
  sleeping : ConsRound
  fault : ConsRound

-- The callbacks of the other requests, none.
abbrev no_func : Func Cons
no_func = record { pwrite = none; write = none; pread = none; read = none }

abbrev put_fid : Fidpool → ℕ → Option Fid → Fidpool
put_fid pool n f = record pool { items = set pool.items n f }

-- One round of the loop in `main`, for a request; `fresh` is an address for the pool to grow.
unfoldable pub cons_request : ℕ → Files → List Irq → Req → Fidpool → Cons → ConsRound
cons_request fresh fs is r pool d = elim (fid_lookup pool r.fid) [
  | none ↦ fault
  | some slot ↦
      if (r.fn == m_pwrite) || (r.fn == m_swrite)
      then (elim (cons_write slot r d) [
        | none ↦ fault
        | some (f, r', d') ↦ answers r' (put_fid pool r.fid f) d'
      ])
      else if (r.fn == m_pread) || (r.fn == m_sread)
      then (elim (cons_read fs is slot r) [
        | reads f r' ↦ answers r' (put_fid pool r.fid (some f)) d
        | sleeps ↦ sleeping
        | faults ↦ fault
      ])
      else if r.fn == m_seek
      then (let (f, r') = cons_seek slot r in answers r' (put_fid pool r.fid f) d)
      else (elim (dofunc fresh fs no_func r pool d) [
        | none ↦ fault
        | some t ↦ answers t.req t.pool t.device
      ])
]
