-- ===== src/Libc/Stream.antt =====
-- libc/stream: buffered input and output. A stream's function pointers are flags that say whether they
-- are there, and the system calls behind them act on a device, a type `D` of their own. A pointer into a
-- buffer is its distance from the start; `none` is an access outside of an object, a division by
-- zero, or the fuel has run out.
pub mod Reads
pub mod Writes
mod Tests
use yax.Base.{
  ℕ, zero, suc, ◌+◌, ◌-◌, ◌*◌, ◌/◌, ◌%◌, ◌^◌, min, Bool, true, false, not, Option, none, some, List,
  [], ◌∷◌, ◌++◌, ◌>>=◌, ltb, ◌==◌, if◌then◌else◌, has_bit, length, take, drop,
}
use yax.Base.Int.{ℤ, pos, negsuc}
use yax.Codas.Bit.{Bytes}
use yax.Libc.Str.{strlen}
use yax.Libc.Text.{write_at}

pub record Stream : Type 0 where
  pub can_read : Bool
  pub can_write : Bool
  pub rbuf : Bytes
  pub wbuf : Bytes
  pub wstart : ℕ
  pub wpos : ℕ
  pub rpos : ℕ
  pub rend : ℕ
  pub err : Bool
  pub eof : Bool

-- What a system call gives: its result, and the bytes that it read.
pub record Called (D : Type 0) : Type 0 where
  pub result : ℤ
  pub bytes : Bytes
  pub device : D

abbrev pub with_err : Stream → Stream
with_err s = record s { err = true }

-- The bytes that are not written yet, and those that are not read.
abbrev pub unwritten : Stream → Bytes
unwritten s = take (s.wpos - s.wstart) (drop s.wstart s.wbuf)

abbrev pub unread : Stream → Bytes
unread s = take (s.rend - s.rpos) (drop s.rpos s.rbuf)

abbrev pub eof_code : ℤ
eof_code = negsuc 0

module _ {D : Type 0} (write : Bytes → D → Called D) where
  unfoldable pub fflush : Stream → D → ℤ × Stream × D
  fflush s d =
      if not s.can_write
      then (eof_code, with_err s, d)
      else (let r = write (unwritten s) d in
          elim (r.result) [
            | negsuc n ↦ (eof_code, with_err s, r.device)
            | pos n ↦
                if s.wstart + n == s.wpos
                then (pos 0, record s { wstart = 0; wpos = 0 }, r.device)
                else (eof_code, with_err (record s { wstart = s.wstart + n }), r.device)
          ])

  -- The loop, with fuel, the bytes left and those that are done. The bytes are taken from the start of
  -- `buf` in each round.
  unfoldable pub fwrite_from : ℕ → Bytes → ℕ → ℕ → ℕ → Stream → D → Option (ℕ × Stream × D)
  fwrite_from zero buf size len acc s d = none
  fwrite_from (suc k) buf size len acc s d = elim (len == 0) [
    | true ↦ some (acc / size, s, d)
    | false ↦
        let room = min (length s.wbuf - (s.wpos - s.wstart)) len in
        let wlen = room - room % size in
        (do
          w ← write_at s.wpos (take wlen buf) s.wbuf
          let s1 = record s { wbuf = w; wpos = s.wpos + wlen } in
              elim (ltb wlen len) [
                | false ↦ fwrite_from k buf size (len - wlen) (acc + wlen) s1 d
                | true ↦
                    let (code, s2, d2) = fflush s1 d in
                    elim code [
                      | negsuc n ↦ some ((acc + wlen) / size, s2, d2)
                      | pos n ↦ fwrite_from k buf size (len - wlen) (acc + wlen) s2 d2
                    ]
              ])
  ]

  -- The product has 32 bits.
  unfoldable pub fwrite : ℕ → Bytes → ℕ → ℕ → Stream → D → Option (ℕ × Stream × D)
  unfolding fwrite_from
  fwrite k buf size nmemb s d =
      if size == 0 then none else fwrite_from k buf size ((size * nmemb) % 2 ^ 32) 0 s d

  unfoldable pub fputc : ℕ → ℕ → Stream → D → Option (ℤ × Stream × D)
  fputc k c s d = do
    (n, s', d') ← fwrite k (c % 256 ∷ []) 1 1 s d
    some ((if ltb n 1 then eof_code else pos c), s', d')

  unfoldable pub fputs : ℕ → Bytes → Stream → D → Option (ℤ × Stream × D)
  fputs k str s d = do
    len ← strlen str
    (n, s', d') ← fwrite k str 1 len s d
    some ((if ltb n len then eof_code else pos 0), s', d')

  -- The stream is flushed, whatever comes of that, and released.
  unfoldable pub fclose : Stream → D → ℤ × D
  fclose s d = let (r, s', d') = fflush s d in (pos 0, d')

unfoldable pub ferror : Stream → ℕ
ferror s = if s.err then 1 else 0

-- What `fread` leaves: the number of items, the caller's memory, the stream and the device.
pub record Fread (D : Type 0) : Type 0 where
  pub items : ℕ
  pub ptr : Bytes
  pub stream : Stream
  pub device : D

module _ {D : Type 0} (read : ℕ → D → Called D) where
  -- The buffer is filled anew.
  unfoldable pub refill : ℕ → ℕ → Bytes → Stream → D → Option (Fread D)
  refill size readlen ptr s d =
      let r = read (length s.rbuf) d in
      elim (r.result) [
        | negsuc n ↦
            some
              (record { items = readlen / size; ptr = ptr; stream = with_err s; device = r.device })
        | pos zero ↦ some (record {
          items = readlen / size;
          ptr = ptr;
          stream = record s { eof = true };
          device = r.device;
        })
        | pos (suc n) ↦ do
          b ← write_at 0 (r.bytes) s.rbuf
          some (record {
            items = readlen / size;
            ptr = ptr;
            stream = record s { rbuf = b; rpos = 0; rend = suc n };
            device = r.device;
          })
      ]

  -- The rest comes from the device, behind the bytes in the buffer that are no whole item.
  unfoldable pub read_rest : ℕ → ℕ → ℕ → ℕ → Bytes → Stream → D → Option (Fread D)
  unfolding refill
  read_rest size len readlen pad ptr s d =
      let r = read (len - readlen) d in
      elim (r.result) [
        | negsuc n ↦
            some
              (record { items = readlen / size; ptr = ptr; stream = with_err s; device = r.device })
        | pos zero ↦ some (record {
          items = readlen / size;
          ptr = ptr;
          stream = record s { eof = true };
          device = r.device;
        })
        | pos (suc n) ↦ do
          ptr' ← write_at (readlen + pad) (r.bytes) ptr
          (if suc n / size == 0 then refill size (readlen + suc n) ptr' s (r.device) else (do
            ptr'' ← write_at readlen (take pad (drop s.rpos s.rbuf)) ptr'
            refill size (readlen + suc n) ptr'' (record s { rpos = s.rpos + pad }) (r.device)))
      ]

  unfoldable pub fread : ℕ → ℕ → Bytes → Stream → D → Option (Fread D)
  unfolding read_rest
  fread size nitems ptr s d =
      let len = (size * nitems) % 2 ^ 32 in
      let whole = min (s.rend - s.rpos) len in
      let pad = whole % size in
      let readlen = whole - pad in
      let s1 = record s { rpos = s.rpos + readlen } in
      if size == 0 then none else (do
        ptr' ← write_at 0 (take readlen (drop s.rpos s.rbuf)) ptr
        (if not (ltb readlen len)
            then some (record { items = readlen / size; ptr = ptr'; stream = s1; device = d })
            else if not s.can_read
            then some
                (record { items = readlen / size; ptr = ptr'; stream = with_err s1; device = d })
            else read_rest size len readlen pad ptr' s1 d))
