-- ===== src/Drivers/Cons/Tests.antt =====
-- The console with a clear screen.
use yax.Base.{◌≡◌, refl, none, some, [], ◌∷◌, ◌++◌, replicate, arith, length-replicate}
use yax.Base.Int.{pos, negsuc}
use yax.Yaxfs.Fid.{Fid}
use yax.Yaxfs.Dofunc.{Req}
use yax.Codes.{m_swrite}
use yax.Drivers.Cons.{
  put_from, cells, cell, Cons, put_chars, cons_write, keys_from, read_keys, keys, keyed, outside,
  rem,
}
use yax.Drivers.Cons.Screen.{OnScreen, cons_write-OnScreen, put_chars-text}

abbrev blank : Cons
blank = record { vga = replicate cells (cell 32); cursor_low = 0; cursor_high = 0 }

abbrev opened : Fid
opened = record { off = pos 1999; omode = 2; dirread = none; file = 1; aux = 0 }

-- A line feed at the end of the screen, and a character.
abbrev writes : Req
writes = record {
  fn = m_swrite;
  submsg = 0;
  fid = 1;
  buf = 10 ∷ 104 ∷ [];
  len = 2;
  len2 = 0;
  off = pos 0;
  ret = pos 0;
  out = [];
}

cons_write-OnScreen_example : OnScreen (cons_write (some opened) writes blank)
cons_write-OnScreen_example =
    cons_write-OnScreen opened writes blank 1999 0 refl (omega arith) refl
      (length-replicate cells (cell 32))

put_chars-text_example :
    put_chars (104 ∷ 105 ∷ []) 1 (cell 36 ∷ (cell 32 ∷ cell 33 ∷ []) ++ (cell 34 ∷ []))
    ≡ some (3, cell 36 ∷ cell 104 ∷ cell 105 ∷ cell 34 ∷ [])
put_chars-text_example =
    put_chars-text (104 ∷ 105 ∷ []) (cell 36 ∷ []) (cell 32 ∷ cell 33 ∷ []) (cell 34 ∷ [])
      (omega arith) refl (omega arith)

-- Caps lock is number 58, where the map has 58 characters.
caps_lock : read_keys (keys (58 ∷ []) ∷ []) ≡ outside
unfolding read_keys keys_from
caps_lock = refl

letter : read_keys (keys (0 ∷ 200 ∷ []) ∷ keys (30 ∷ 31 ∷ []) ∷ []) ≡ keyed (pos 2) (97 ∷ 111 ∷ [])
unfolding read_keys keys_from
letter = refl

-- A seek to the position -1, which the remainder keeps, and a write from there.
below : cons_write (some (record opened { off = negsuc 0 })) writes blank ≡ none
unfolding cons_write put_from rem
below = refl
