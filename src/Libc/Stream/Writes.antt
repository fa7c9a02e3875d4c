-- ===== src/Libc/Stream/Writes.antt =====
-- libc/stream/fwrite.c and fflush.c: what goes into a stream comes to the device, in its order.
use yax.Base.{
  ℕ, zero, suc, ◌+◌, ◌-◌, ◌*◌, ◌/◌, ◌%◌, ◌^◌, ◌<◌, ◌≤◌, ◌≡◌, refl, min, true, false, not, some, [],
  ◌∷◌, ◌++◌, ltb, ◌==◌, length, take, drop, arith, ap, ◌∙◌, sym, append_assoc, length-take,
  length-drop, length-append, take-append,
}
use yax.Base.Int.{pos}
use yax.Codas.Bit.{Bytes}
use yax.Libc.Text.{write_at}
use yax.Libc.Stream.{Stream, Called, unwritten, fflush, fwrite_from, fwrite}
use yax.Libc.Stream.Reads.{write_at-fits}

-- A device that takes all that it is given, behind what it holds.
pub record Accepts (D : Type 0) (write : Bytes → D → Called D) (holds : D → Bytes) : Type 0 where
  pub count : (b : Bytes) (d : D) → (write b d).result ≡ pos (length b)
  pub order : (b : Bytes) (d : D) → holds ((write b d).device) ≡ holds d ++ b

-- The bytes between two positions, and those behind the second one.
range-write :
    (i j : ℕ) (w mem : Bytes)
    → i ≤ j
    → j + length w ≤ length mem
    → take (j + length w - i) (drop i (take j mem ++ (w ++ drop (j + length w) mem)))
      ≡ take (j - i) (drop i mem) ++ w
range-write zero j w mem h l =
    ap (λ t. take (j + length w - 0) t)
      (sym (append_assoc (take j mem) w (drop (j + length w) mem)))
    ∙ take-append (j + length w - 0) (take j mem ++ w) (drop (j + length w) mem)
        (omega (arith, length-append (take j mem) w, length-take j mem))
    ∙ ap (λ k. take k mem ++ w) (omega arith)
range-write (suc i) zero w mem h l = absurd (omega arith)
range-write (suc i) (suc j) w [] h l = absurd (omega arith)
range-write (suc i) (suc j) w (x ∷ mem) h l =
    let more : suc j + length w ≡ suc (j + length w) = omega arith in
    let left : suc j + length w - suc i ≡ j + length w - i = omega arith in
    let gap : suc j - suc i ≡ j - i = omega arith in
    rw (left, more, gap) (range-write i j w mem (omega arith) (omega arith))

-- What the buffer holds behind the bytes.
abbrev filled : ℕ → Bytes → Stream → Stream
filled n buf s = record s {
  wbuf = take s.wpos s.wbuf ++ (take n buf ++ drop (s.wpos + n) s.wbuf);
  wpos = s.wpos + n;
}

-- The loop's first round takes all, and the second ends it.
fwrite_from-filled :
    {D : Type 0} (write : Bytes → D → Called D) (k n : ℕ) (buf : Bytes) (s : Stream) (d : D)
    → 0 < n
    → n ≤ length buf
    → s.wstart ≤ s.wpos
    → s.wpos + n ≤ length s.wbuf
    → fwrite_from write (suc (suc k)) buf 1 n 0 s d ≡ some (n, filled n buf s, d)
unfolding fwrite_from
fwrite_from-filled write k n buf s d z m v f =
    let some_bytes : (n == 0) ≡ false = ground arith in
    let room : min (length s.wbuf - (s.wpos - s.wstart)) n ≡ n = omega arith in
    let pad : n % 1 ≡ 0 = omega arith in
    let whole : n - 0 ≡ n = omega arith in
    let w_len : length (take n buf) ≡ n = omega (arith, length-take n buf) in
    let first : write_at s.wpos (take n buf) s.wbuf ≡ some (filled n buf s).wbuf =
      write_at-fits s.wpos (take n buf) s.wbuf (omega (arith, w_len))
      ∙ ap (λ j. some (take s.wpos s.wbuf ++ (take n buf ++ drop (s.wpos + j) s.wbuf))) w_len in
    let all : ltb n n ≡ false = ground arith in
    let left : n - n ≡ 0 = omega arith in
    let count : (0 + n) / 1 ≡ n = omega arith in
    rw
      (
        fwrite_from, some_bytes, room, pad, whole, first, all, room, pad, whole, left, room, pad,
        whole, count,
      )
      refl

-- Bytes that fit behind what is in the buffer all go there, and a flush brings them to a device that
-- takes what it is given, behind what the stream held before, in their order; the stream holds nothing
-- then.
pub fwrite-fflush :
    {D : Type 0} (write : Bytes → D → Called D) (holds : D → Bytes) (k n : ℕ) (buf : Bytes)
    (s : Stream) (d : D)
    → Accepts D write holds
    → s.can_write ≡ true
    → 0 < n
    → n < 2 ^ 32
    → n ≤ length buf
    → s.wstart ≤ s.wpos
    → s.wpos + n ≤ length s.wbuf
    → (s' s'' : Stream) × (d' : D) × (fwrite write (suc (suc k)) buf 1 n s d ≡ some (n, s', d))
      × (fflush write s' d ≡ (pos 0, s'', d'))
      × (holds d' ≡ holds d ++ (unwritten s ++ take n buf))
      × (unwritten s'' ≡ [])
unfolding fwrite fflush
fwrite-fflush {D} write holds k n buf s d acc c z h m v f =
    let len : (1 * n) % 2 ^ 32 ≡ n = omega arith in
    let s' = filled n buf s in
    let w_len : length (take n buf) ≡ n = omega (arith, length-take n buf) in
    let pending : unwritten s' ≡ unwritten s ++ take n buf =
      ap
        (λ j.
          take (s.wpos + j - s.wstart)
            (drop s.wstart (take s.wpos s.wbuf ++ (take n buf ++ drop (s.wpos + j) s.wbuf))))
        (sym w_len)
      ∙ range-write s.wstart s.wpos (take n buf) s.wbuf v (omega (arith, w_len)) in
    let size : length (unwritten s') ≡ s.wpos + n - s.wstart = omega (
      arith,
      ap length pending,
      length-append (unwritten s) (take n buf),
      w_len,
      length-take (s.wpos - s.wstart) (drop s.wstart s.wbuf),
      length-drop s.wstart s.wbuf,
    ) in
    let count : (write (unwritten s') d).result ≡ pos (s.wpos + n - s.wstart) =
      acc.count (unwritten s') d ∙ ap pos size in
    let on : not s.can_write ≡ false = ap not c in
    let empty : (s.wstart + (s.wpos + n - s.wstart) == s.wpos + n) ≡ true = ground arith in
    (
      s',
      record s' { wstart = 0; wpos = 0 },
      (write (unwritten s') d).device,
      ap (λ l. fwrite_from write (suc (suc k)) buf 1 l 0 s d) len
          ∙ fwrite_from-filled write k n buf s d z m v f,
      rw (on, count, empty) refl,
      acc.order (unwritten s') d ∙ ap (λ t. holds d ++ t) pending,
      refl,
    )
