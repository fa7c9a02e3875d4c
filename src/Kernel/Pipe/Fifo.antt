-- ===== src/Kernel/Pipe/Fifo.antt =====
-- A pipe's buffer is a queue of bytes.
use yax.Base.{
  take-all, append-nil, tabulate-get_or, ap, ap₂, sym, tabulate_ext, tabulate-append, drop-append,
  take-tabulate, ◌&&◌, ℕ, zero, suc, ◌+◌, ◌-◌, ◌%◌, ◌≤◌, ◌<◌, ◌≡◌, refl, ◌∙◌, min, true, none, some,
  [], ◌∷◌, ◌++◌, length, get_or, set, take, drop, tabulate, leb, ltb, if◌then◌else◌, arith,
  length-set, get_or-set_self, get_or-set_ne, length-tabulate, get_or-take, get_or-drop,
  length-take, length-drop, ℕ_discrete,
}
use yax.Codas.Bit.{Bytes}
use yax.Kernel.Pipe.{
  buf_len, Buf, End, blit, read_bytes, pipe_read, write_bytes, returned, blocked, write_loop,
  pipe_write,
}

-- The semaphores count the bytes that are there and the room that is left.
pub record IsValid (b : Buf) : Type 0 where
  pub size : length b.buf ≡ buf_len
  pub in_range : b.begin < buf_len
  pub fits : b.len ≤ buf_len
  pub filled : b.filled ≡ b.len
  pub empty : b.empty + b.len ≡ buf_len

-- The bytes in the buffer, oldest first.
abbrev pub contents : Buf → Bytes
contents b = tabulate b.len (λ i. get_or b.buf ((b.begin + i) % buf_len) 0)

length-blit : (buf : Bytes) (i : ℕ) (xs : Bytes) → length (blit buf i xs) ≡ length buf
unfolding blit
length-blit buf i [] = refl
length-blit buf i (x ∷ xs) = length-blit (set buf i x) (i + 1) xs ∙ length-set buf i x

get_or-blit :
    (buf : Bytes) (i : ℕ) (xs : Bytes) (j : ℕ)
    → i + length xs ≤ length buf
    → get_or (blit buf i xs) j 0 ≡ (
        if leb i j
        then (if ltb j (i + length xs) then get_or xs (j - i) 0 else get_or buf j 0)
        else get_or buf j 0)
unfolding blit
get_or-blit buf i [] j h = ground arith
get_or-blit buf i (x ∷ xs) j h =
    let rest = get_or-blit (set buf i x) (i + 1) xs j (omega (arith, length-set buf i x)) in
    elim (ℕ_discrete i j) [
      | yes e ↦ ground (arith, rest, e, get_or-set_self buf i x 0)
      | no e ↦ ground (arith, rest, get_or-set_ne buf i j x 0, get_or-tail x xs (j - i))
    ]
  where
    get_or-tail : (x : ℕ) (xs : Bytes) (k : ℕ) → 0 < k → get_or (x ∷ xs) k 0 ≡ get_or xs (k - 1) 0
    get_or-tail x xs zero p = absurd (omega arith)
    get_or-tail x xs (suc k) p = ground arith

-- The byte at a distance from the start of the buffer, going round.
abbrev at : Bytes → ℕ → ℕ → ℕ
at buf begin i = get_or buf ((begin + i) % buf_len) 0

-- A read of no more bytes than there are takes the oldest ones.
read_bytes-slices :
    (n : ℕ) (b : Buf)
    → b.begin < buf_len
    → n ≤ buf_len
    → (read_bytes n b).0 ≡ tabulate n (at b.buf b.begin)
unfolding read_bytes
read_bytes-slices n b r h =
    let endlen : ℕ = min (b.begin + n) buf_len - b.begin in
    let rest : ℕ = n - endlen in
    let e : n ≡ endlen + rest = omega arith in
    let whole : tabulate n (at b.buf b.begin)
        ≡ tabulate endlen (at b.buf b.begin) ++ tabulate rest (λ i. at b.buf b.begin (endlen + i)) =
      ap (λ k. tabulate k (at b.buf b.begin)) e ∙ tabulate-append endlen rest (at b.buf b.begin) in
    ap₂ ◌++◌
      (tabulate_ext endlen _ (at b.buf b.begin) (λ i p. ap (λ j. get_or b.buf j 0) (omega arith)))
      (tabulate_ext rest _ (λ i. at b.buf b.begin (endlen + i))
        (λ i p. ap (λ j. get_or b.buf j 0) (omega arith)))
    ∙ sym whole

drop-contents :
    (n : ℕ) (b : Buf)
    → n ≤ b.len
    → drop n (contents b) ≡ tabulate (b.len - n) (λ i. at b.buf b.begin (n + i))
drop-contents n b h =
    let e : b.len ≡ n + (b.len - n) = omega arith in
    ap (λ k. drop n (tabulate k (at b.buf b.begin))) e
    ∙ (ap (drop n) (tabulate-append n (b.len - n) (at b.buf b.begin))
        ∙ drop-append n (tabulate n (at b.buf b.begin)) _ (length-tabulate n _))

read_bytes-contents :
    (n : ℕ) (b : Buf)
    → b.begin < buf_len
    → b.len ≤ buf_len
    → n ≤ b.len
    → ((read_bytes n b).0 ≡ take n (contents b))
      × (contents (read_bytes n b).1 ≡ drop n (contents b))
read_bytes-contents n b r f h = (
  read_bytes-slices n b r (omega arith) ∙ sym (take-tabulate n b.len (at b.buf b.begin) h),
  unfold read_bytes in
      tabulate_ext (b.len - n) _ (λ i. at b.buf b.begin (n + i))
        (λ i p. ap (λ j. get_or b.buf j 0) (omega arith))
      ∙ sym (drop-contents n b h),
)

-- What stands at `j` after a write that goes round.
written_at :
    (buf xs : Bytes) (tail j : ℕ)
    → length buf ≡ buf_len
    → tail < buf_len
    → length xs ≤ buf_len
    → j < buf_len
    → let k = min (tail + length xs) buf_len - tail in
      get_or (blit (blit buf tail (take k xs)) 0 (drop k xs)) j 0 ≡ (
        if leb tail j && ltb j (tail + length xs)
        then get_or xs (j - tail) 0
        else if ltb (j + buf_len) (tail + length xs)
        then get_or xs (j + buf_len - tail) 0
        else get_or buf j 0)
written_at buf xs tail j s t f h =
    let k = min (tail + length xs) buf_len - tail in
    ground (
      arith,
      length-blit buf tail (take k xs),
      length-take k xs,
      length-drop k xs,
      get_or-blit (blit buf tail (take k xs)) 0 (drop k xs) j,
      get_or-blit buf tail (take k xs) j,
      get_or-take k xs (j - tail) 0,
      get_or-drop k xs (j - 0) 0,
    )

module _ (xs : Bytes) (b : Buf) (i : ℕ) where
  written-old :
      length b.buf ≡ buf_len
      → b.begin < buf_len
      → b.len + length xs ≤ buf_len
      → i < b.len
      → at (write_bytes xs b).buf b.begin i ≡ at b.buf b.begin i
  unfolding write_bytes
  written-old s r f p =
      ground (arith, written_at b.buf xs ((b.begin + b.len) % buf_len) ((b.begin + i) % buf_len) s)

  written-new :
      length b.buf ≡ buf_len
      → b.begin < buf_len
      → b.len + length xs ≤ buf_len
      → i < length xs
      → at (write_bytes xs b).buf b.begin (b.len + i) ≡ get_or xs i 0
  unfolding write_bytes
  written-new s r f p = ground (
    arith,
    written_at b.buf xs ((b.begin + b.len) % buf_len) ((b.begin + (b.len + i)) % buf_len) s,
  )

-- A write of no more bytes than there is room for puts them behind the others.
write_bytes-contents :
    (xs : Bytes) (b : Buf)
    → length b.buf ≡ buf_len
    → b.begin < buf_len
    → b.len + length xs ≤ buf_len
    → contents (write_bytes xs b) ≡ contents b ++ xs
unfolding write_bytes
write_bytes-contents xs b s r f =
    tabulate-append b.len (length xs) (at (write_bytes xs b).buf b.begin)
    ∙ ap₂ ◌++◌ (tabulate_ext b.len _ _ (λ i p. written-old xs b i s r f p)) (
        tabulate_ext (length xs) _ (λ i. get_or xs i 0) (λ i p. written-new xs b i s r f p)
        ∙ tabulate-get_or xs 0)

-- One round of a read or a write keeps the buffer valid.
write_bytes-IsValid :
    (xs : Bytes) (a : Buf) (empty : ℕ)
    → IsValid a
    → length xs + empty ≡ a.empty
    → IsValid (write_bytes xs (record a { empty = empty }))
unfolding write_bytes
write_bytes-IsValid xs a empty v h =
    let tail = (a.begin + a.len) % buf_len in
    let endlen = min (tail + length xs) buf_len - tail in
    ground (
      arith,
      length-blit (blit a.buf tail (take endlen xs)) 0 (drop endlen xs),
      length-blit a.buf tail (take endlen xs),
    )

module _ (p : End) (b : Buf) (v : IsValid b) where
  -- With bytes in a valid buffer and the other end there, a read takes the oldest ones, as many as
  -- it asks for or as there are, leaves the others in their order, and keeps the buffer valid.
  pub pipe_read-contents :
      (len : ℕ)
      → p.other ≡ true
      → 0 < b.len
      → (out : Bytes) × (b' : Buf) × (pipe_read p len b ≡ some (out, b'))
        × (out ≡ take (min len b.len) (contents b))
        × (contents b' ≡ drop (min len b.len) (contents b))
        × IsValid b'
  unfolding pipe_read
  pipe_read-contents len o h =
      let n = min len b.len in
      let c : Buf = record b { filled = b.filled - 1 + 1 - n } in
      let same = read_bytes-contents n c (ground arith) (ground arith) (ground arith) in
      (
        (read_bytes n c).0,
        (read_bytes n c).1,
        ground arith,
        same.0,
        same.1,
        unfold read_bytes in ground arith,
      )

  -- A read of an empty pipe parks, whatever the other end.
  pub pipe_read-parks : (len : ℕ) → b.len ≡ 0 → pipe_read p len b ≡ none
  unfolding pipe_read
  pipe_read-parks len h = ground arith

write_loop-zero :
    (k : ℕ) (p : End) (len clen : ℕ) (xs : Bytes) (a : Buf) (n : ℕ) (a' : Buf)
    → (len ≡ 0 → clen ≡ 0)
    → write_loop k p len clen xs a ≡ returned n a'
    → n ≡ 0
unfolding write_loop
write_loop-zero zero p len clen xs a n a' h e = cc
write_loop-zero (suc k) p len clen xs a n a' h e =
    let m = min (len - clen) (buf_len - a.len) in
    let b : Buf = write_bytes (take m xs) (record a { empty = a.empty - 1 + 1 - m }) in
    ground (arith, write_loop-zero k p (len - clen) m (drop m xs) b n a')

-- Whatever the bytes and the buffer, a write that returns returns 0.
pub pipe_write-zero :
    (p : End) (xs : Bytes) (a : Buf) (n : ℕ) (a' : Buf) → pipe_write p xs a ≡ returned n a' → n ≡ 0
unfolding pipe_write
pipe_write-zero p xs a n a' e =
    ground (arith, write_loop-zero 3 p (length xs) 0 xs a n a' (λ _. refl))

-- The buffer after a round that moves `n` bytes.
abbrev pub filled_by : ℕ → Bytes → Buf → Buf
filled_by n xs a = write_bytes (take n xs) (record a { empty = a.empty - n })

write_loop-round :
    (k : ℕ) (p : End) (len clen : ℕ) (xs : Bytes) (a : Buf)
    → IsValid a
    → p.other ≡ true
    → 0 < len
    → 0 < a.empty
    → let n = min (len - clen) a.empty in
      write_loop (suc k) p len clen xs a
      ≡ write_loop k p (len - clen) n (drop n xs) (filled_by n xs a)
unfolding write_loop
write_loop-round k p len clen xs a v o h f =
    let m : ℕ = min (len - clen) (buf_len - a.len) in
    let e : m ≡ min (len - clen) a.empty = omega arith in
    let g : a.empty - 1 + 1 - m ≡ a.empty - min (len - clen) a.empty = omega arith in
    let step : write_loop (suc k) p len clen xs a
        ≡ write_loop k p (len - clen) m (drop m xs)
            (write_bytes (take m xs) (record a { empty = a.empty - 1 + 1 - m })) =
      ground arith in
    step
    ∙ ap₂
        (λ i t.
          write_loop k p (len - clen) i (drop i xs)
            (write_bytes (take i xs) (record a { empty = t })))
        e g

filled_by-contents :
    (n : ℕ) (xs : Bytes) (a : Buf)
    → IsValid a
    → n ≤ a.empty
    → n ≤ length xs
    → (contents (filled_by n xs a) ≡ contents a ++ take n xs)
      × IsValid (filled_by n xs a)
      × ((filled_by n xs a).empty ≡ a.empty - n)
filled_by-contents n xs a v h k = (
  write_bytes-contents (take n xs) (record a { empty = a.empty - n }) (ground arith) (ground arith)
      (omega (arith, length-take n xs)),
  write_bytes-IsValid (take n xs) a (a.empty - n) v (omega (arith, length-take n xs)),
  unfold write_bytes in refl,
)

parked :
    (k : ℕ) (p : End) (len clen : ℕ) (xs : Bytes) (a : Buf)
    → 0 < len
    → a.empty ≡ 0
    → write_loop (suc k) p len clen xs a ≡ blocked xs a
unfolding write_loop
parked k p len clen xs a h e = ground arith

finished :
    (k : ℕ) (p : End) (len clen : ℕ) (xs : Bytes) (a : Buf)
    → len ≡ 0
    → write_loop (suc k) p len clen xs a ≡ returned clen a
unfolding write_loop
finished k p len clen xs a h = ground arith

module _ (p : End) (xs : Bytes) (a : Buf) (v : IsValid a) where
  opened : p.writes ≡ true → pipe_write p xs a ≡ write_loop 3 p (length xs) 0 xs a
  unfolding pipe_write
  opened w = ground arith

  -- With the other end there and a valid buffer to write that has room, bytes that fill the room, or
  -- more, park the writer once the buffer is full: the bytes that fitted are behind those that were
  -- there, and the writer holds the others.
  pub pipe_write-parks :
      p.other ≡ true
      → p.writes ≡ true
      → 0 < a.empty
      → a.empty ≤ length xs
      → (a' : Buf) × (pipe_write p xs a ≡ blocked (drop a.empty xs) a')
        × (contents a' ≡ contents a ++ take a.empty xs)
        × IsValid a'
        × (a'.empty ≡ 0)
  pipe_write-parks o w h f =
      let len = length xs in
      let b : Buf = filled_by a.empty xs a in
      let (c, i, e) = filled_by-contents a.empty xs a v (omega arith) f in
      let first = write_loop-round 2 p len 0 xs a v o (omega arith) h in
      let n : min (len - 0) a.empty ≡ a.empty = omega arith in
      (
        b,
        opened w
            ∙ (first
                ∙ rw n
                    (parked 1 p (len - 0) a.empty (drop a.empty xs) b (omega arith) (omega arith))),
        c,
        i,
        omega arith,
      )

  empty_xs : length xs ≡ 0 → contents a ≡ contents a ++ xs
  empty_xs z =
      sym (append-nil (contents a)) ∙ ap (λ t. contents a ++ t) (take-all 0 xs (omega arith))

  -- With the other end there and a valid buffer to write, bytes for which there is more than enough
  -- room all go behind those that are there, the write returns, and the buffer is valid.
  pub pipe_write-contents :
      p.other ≡ true
      → p.writes ≡ true
      → length xs < a.empty
      → (n : ℕ) × (a' : Buf) × (pipe_write p xs a ≡ returned n a')
        × (contents a' ≡ contents a ++ xs)
        × IsValid a'
  pipe_write-contents o w h = elim (ℕ_discrete (length xs) 0) [
    | yes z ↦ (0, a, opened w ∙ finished 2 p (length xs) 0 xs a z, empty_xs z, v)
    | no z ↦
        let len = length xs in
        let b1 : Buf = filled_by len xs a in
        let (c1, i1, e1) = filled_by-contents len xs a v (omega arith) (omega arith) in
        let b2 : Buf = filled_by 0 (drop len xs) b1 in
        let (c2, i2, e2) = filled_by-contents 0 (drop len xs) b1 i1 (omega arith) (omega arith) in
        let first = write_loop-round 2 p len 0 xs a v o (omega arith) (omega arith) in
        let second =
          write_loop-round 1 p (len - 0) len (drop len xs) b1 i1 o (omega arith) (omega arith) in
        let n : min (len - 0) a.empty ≡ len = omega arith in
        let m : min (len - 0 - len) b1.empty ≡ 0 = omega arith in
        (
          0,
          b2,
          opened w
              ∙ (first ∙ rw n (second ∙ rw m (finished 0 p (len - 0 - len) 0 _ _ (omega arith)))),
          c2 ∙ (append-nil _ ∙ (c1 ∙ ap (λ t. contents a ++ t) (take-all len xs (omega arith)))),
          i2,
        )
  ]
