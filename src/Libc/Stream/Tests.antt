-- ===== src/Libc/Stream/Tests.antt =====
-- A device that is a list of bytes, and a stream with four bytes of room for each direction.
use yax.Base.{
  ℕ, ◌≡◌, refl, sym, true, false, some, [], ◌∷◌, ◌++◌, length, take, drop, take-drop, length-take,
  arith,
}
use yax.Base.Int.{pos}
use yax.Codas.Bit.{Bytes}
use yax.Libc.Text.{write_at}
use yax.Libc.Stream.{Stream, Called, unwritten, fflush, fwrite, fwrite_from, fread}
use yax.Libc.Stream.Reads.{Delivers, Took, fread-Took}
use yax.Libc.Stream.Writes.{Accepts, fwrite-fflush}

abbrev from_list : ℕ → Bytes → Called Bytes
from_list n d = record { result = pos (length (take n d)); bytes = take n d; device = drop n d }

abbrev to_list : Bytes → Bytes → Called Bytes
to_list b d = record { result = pos (length b); bytes = []; device = d ++ b }

from_list-Delivers : Delivers Bytes from_list (λ d. d)
from_list-Delivers = record {
  order = λ n d. sym (take-drop n d);
  room = λ n d. omega (arith, length-take n d);
  count = λ n d. refl;
}

to_list-Accepts : Accepts Bytes to_list (λ d. d)
to_list-Accepts = record { count = λ b d. refl; order = λ b d. refl }

-- One byte is unread, and one is unwritten.
abbrev stream : Stream
stream = record {
  can_read = true;
  can_write = true;
  rbuf = 1 ∷ 2 ∷ 0 ∷ 0 ∷ [];
  wbuf = 9 ∷ 8 ∷ 0 ∷ 0 ∷ [];
  wstart = 1;
  wpos = 2;
  rpos = 1;
  rend = 2;
  err = false;
  eof = false;
}

fread-Took_example :
    Took
      (λ d. d)
      (2 ∷ 3 ∷ 4 ∷ 5 ∷ [])
      (fread from_list 1 3 (0 ∷ 0 ∷ 0 ∷ []) stream (3 ∷ 4 ∷ 5 ∷ []))
fread-Took_example =
    fread-Took from_list (λ d. d) 3 (0 ∷ 0 ∷ 0 ∷ []) stream (3 ∷ 4 ∷ 5 ∷ []) from_list-Delivers
      (omega arith) (omega arith) (omega arith)

fwrite-fflush_example :
    (s' s'' : Stream) × (d' : Bytes) × (fwrite to_list 2 (5 ∷ 6 ∷ []) 1 2 stream (7 ∷ [])
      ≡ some (2, s', 7 ∷ []))
    × (fflush to_list s' (7 ∷ []) ≡ (pos 0, s'', d'))
    × (d' ≡ 7 ∷ 8 ∷ 5 ∷ 6 ∷ [])
    × (unwritten s'' ≡ [])
fwrite-fflush_example =
    fwrite-fflush to_list (λ d. d) 0 2 (5 ∷ 6 ∷ []) stream (7 ∷ []) to_list-Accepts refl
      (omega arith) (omega arith) (omega arith) (omega arith) (omega arith)

abbrev narrow : Stream
narrow = record stream { wbuf = 0 ∷ 0 ∷ []; wstart = 0; wpos = 0 }

-- Three bytes through a buffer of two: the third one is the first again.
again :
    fwrite to_list 3 (1 ∷ 2 ∷ 3 ∷ []) 1 3 narrow []
    ≡ some (3, record narrow { wbuf = 1 ∷ 2 ∷ []; wpos = 1 }, 1 ∷ 2 ∷ [])
unfolding fwrite fwrite_from fflush write_at
again = refl
