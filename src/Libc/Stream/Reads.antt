-- ===== src/Libc/Stream/Reads.antt =====
-- libc/stream/fread.c: what comes out of a stream is what the device gives, in its order.
use yax.Base.{
  ℕ, suc, ◌+◌, ◌-◌, ◌*◌, ◌/◌, ◌%◌, ◌^◌, ◌<◌, ◌≤◌, ◌≡◌, refl, min, true, false, Option, none, some,
  [], ◌∷◌, ◌++◌, ltb, ◌==◌, length, take, drop, arith, Bool-cases, inl, inr, ap, ap₂, ◌∙◌, sym,
  append_assoc, length-take, length-drop, length-append, subst, take-append, take-drop, drop-drop,
  drop-take, take-take,
}
use yax.Base.Int.{pos}
use yax.Codas.Bit.{Bytes}
use yax.Libc.Text.{write_at}
use yax.Libc.Stream.{Stream, Called, unread, Fread, refill, read_rest, fread}

-- A device whose reads give a part of what it holds from its position on: at most as much as was asked
-- for, and as much as the result says.
pub record Delivers (D : Type 0) (read : ℕ → D → Called D) (holds : D → Bytes) : Type 0 where
  pub order : (n : ℕ) (d : D) → holds d ≡ (read n d).bytes ++ holds ((read n d).device)
  pub room : (n : ℕ) (d : D) → length ((read n d).bytes) ≤ n
  pub count : (n : ℕ) (d : D) → (read n d).result ≡ pos (length ((read n d).bytes))

-- The result has taken the items from the front of what was to come.
abbrev pub Took : {D : Type 0} → (D → Bytes) → Bytes → Option (Fread D) → Type 0
Took holds all none = ⊥
Took holds all (some r) = all ≡ take r.items r.ptr ++ (unread r.stream ++ holds r.device)

pub write_at-fits :
    (n : ℕ) (w mem : Bytes)
    → n + length w ≤ length mem
    → write_at n w mem ≡ some (take n mem ++ (w ++ drop (n + length w) mem))
unfolding write_at
write_at-fits n w mem h = ground arith

-- What the buffer gives, and what it keeps.
unread-split :
    (s : Stream) (k : ℕ)
    → k ≤ s.rend - s.rpos
    → unread s ≡ take k (drop s.rpos s.rbuf) ++ unread (record s { rpos = s.rpos + k })
unread-split s k h =
    sym (take-drop k (unread s))
    ∙ ap₂ (λ a b. a ++ b) (take-take k (s.rend - s.rpos) (drop s.rpos s.rbuf) h)
        (drop-take k (s.rend - s.rpos) (drop s.rpos s.rbuf)
          ∙ ap₂ (λ a b. take a b) (omega arith) (drop-drop s.rpos k s.rbuf))

write_at-start :
    (w mem : Bytes) → length w ≤ length mem → write_at 0 w mem ≡ some (w ++ drop (length w) mem)
write_at-start w mem h =
    write_at-fits 0 w mem (omega arith) ∙ ap (λ n. some (w ++ drop n mem)) (omega arith)

unread-front :
    (s : Stream) (b t : Bytes) → unread (record s { rbuf = b ++ t; rpos = 0; rend = length b }) ≡ b
unread-front s b t =
    let n : length b - 0 ≡ length b = omega arith in
    ap (λ k. take k (b ++ t)) n ∙ take-append (length b) b t refl

write_at-nothing : (n : ℕ) (mem : Bytes) → n ≤ length mem → write_at n [] mem ≡ some mem
write_at-nothing n mem h =
    let e : n + 0 ≡ n = omega arith in
    write_at-fits n [] mem (omega arith)
    ∙ ap (λ k. some (take n mem ++ drop k mem)) e
    ∙ ap some (take-drop n mem)

-- The filling of the buffer keeps what is to come.
refill-Took :
    {D : Type 0} (read : ℕ → D → Called D) (holds : D → Bytes) (all w ptr b : Bytes) (readlen : ℕ)
    (s : Stream) (d : D)
    → Delivers D read holds
    → (read (length s.rbuf) d).bytes ≡ b
    → unread s ≡ []
    → take readlen ptr ≡ w
    → all ≡ w ++ holds d
    → Took holds all (refill read 1 readlen ptr s d)
unfolding refill
refill-Took {D} read holds all w ptr [] readlen s d del eb empty out rest =
    let r = read (length s.rbuf) d in
    let count : r.result ≡ pos 0 = del.count (length s.rbuf) d ∙ ap (λ t. pos (length t)) eb in
    let div : readlen / 1 ≡ readlen = omega arith in
    let order : holds d ≡ holds (r.device) =
      del.order (length s.rbuf) d ∙ ap (λ t. t ++ holds (r.device)) eb in
    rw (refill, count, div)
      (rest ∙ ap₂ (λ a c. a ++ c) (sym out) (order ∙ ap (λ t. t ++ holds (r.device)) (sym empty)))
refill-Took {D} read holds all w ptr (x ∷ xs) readlen s d del eb empty out rest =
    let r = read (length s.rbuf) d in
    let count : r.result ≡ pos (suc (length xs)) =
      del.count (length s.rbuf) d ∙ ap (λ t. pos (length t)) eb in
    let div : readlen / 1 ≡ readlen = omega arith in
    let fits : length (x ∷ xs) ≤ length s.rbuf =
      omega (arith, del.room (length s.rbuf) d, ap length eb) in
    let order : holds d ≡ (x ∷ xs) ++ holds (r.device) =
      del.order (length s.rbuf) d ∙ ap (λ t. t ++ holds (r.device)) eb in
    rw (refill, count, div, eb, write_at-start (x ∷ xs) s.rbuf fits)
      (rest
        ∙ ap₂ (λ a c. a ++ c) (sym out)
            (order
              ∙ ap (λ t. t ++ holds (r.device))
                  (sym (unread-front s (x ∷ xs) (drop (length (x ∷ xs)) s.rbuf)))))

-- The read into the caller's memory goes on where the buffer ended.
read_rest-Took :
    {D : Type 0} (read : ℕ → D → Called D) (holds : D → Bytes) (all w ptr b : Bytes) (len : ℕ)
    (s : Stream) (d : D)
    → Delivers D read holds
    → (read (len - length w) d).bytes ≡ b
    → unread s ≡ []
    → take (length w) ptr ≡ w
    → length w < len
    → len ≤ length ptr
    → all ≡ w ++ holds d
    → Took holds all (read_rest read 1 len (length w) 0 ptr s d)
unfolding read_rest
read_rest-Took {D} read holds all w ptr [] len s d del eb empty out l m rest =
    let r = read (len - length w) d in
    let count : r.result ≡ pos 0 = del.count (len - length w) d ∙ ap (λ t. pos (length t)) eb in
    let div : length w / 1 ≡ length w = omega arith in
    let order : holds d ≡ holds (r.device) =
      del.order (len - length w) d ∙ ap (λ t. t ++ holds (r.device)) eb in
    rw (read_rest, count, div)
      (rest ∙ ap₂ (λ a c. a ++ c) (sym out) (order ∙ ap (λ t. t ++ holds (r.device)) (sym empty)))
read_rest-Took {D} read holds all w ptr (x ∷ xs) len s d del eb empty out l m rest =
    let r = read (len - length w) d in
    let n = length w in
    let b = x ∷ xs in
    let count : r.result ≡ pos (suc (length xs)) =
      del.count (len - n) d ∙ ap (λ t. pos (length t)) eb in
    let size : suc (length xs) ≤ len - n = omega (arith, del.room (len - n) d, ap length eb) in
    let some_item : (suc (length xs) / 1 == 0) ≡ false = ground arith in
    let plus : n + 0 ≡ n = omega arith in
    let tail = drop (n + length b) ptr in
    let ptr' = w ++ (b ++ tail) in
    let first : write_at n b ptr ≡ some ptr' =
      write_at-fits n b ptr (omega arith) ∙ ap (λ t. some (t ++ (b ++ tail))) out in
    let second : write_at n [] ptr' ≡ some ptr' =
      write_at-nothing n ptr' (omega (arith, length-append w (b ++ tail))) in
    let order : holds d ≡ b ++ holds (r.device) =
      del.order (len - n) d ∙ ap (λ t. t ++ holds (r.device)) eb in
    let got : take (n + suc (length xs)) ptr' ≡ w ++ b =
      ap (λ t. take (n + suc (length xs)) t) (sym (append_assoc w b tail))
      ∙ take-append (n + suc (length xs)) (w ++ b) tail (length-append w b) in
    let s2 = record s { rpos = s.rpos + 0 } in
    let none_left : unread s2 ≡ [] =
      ap (λ k. take (s.rend - k) (drop k s.rbuf)) (omega arith) ∙ empty in
    rw (read_rest, count, plus, eb, first, some_item, second)
      (refill-Took read holds all (w ++ b) ptr' ((read (length s.rbuf) (r.device)).bytes)
        (n + suc (length xs)) s2 (r.device) del refl none_left got
        (rest ∙ ap (λ t. w ++ t) order ∙ sym (append_assoc w b (holds (r.device)))))

-- A stream whose unread bytes lie in its buffer.
abbrev pub IsStream : Stream → Type 0
IsStream s = (s.rpos ≤ s.rend) × (s.rend ≤ length s.rbuf)

length-unread : (s : Stream) → IsStream s → length (unread s) ≡ s.rend - s.rpos
length-unread s v =
    omega (arith, length-take (s.rend - s.rpos) (drop s.rpos s.rbuf), length-drop s.rpos s.rbuf)

-- With bytes as the items and room for them in the caller's memory, on a device whose reads give what it
-- holds in order, and not more than is asked for, `fread` ends without an access outside of an object;
-- the bytes that it says it has read, the ones that stay in the buffer and those that the device still
-- holds are together, in this order, the ones that were to come before.
pub fread-Took :
    {D : Type 0} (read : ℕ → D → Called D) (holds : D → Bytes) (n : ℕ) (ptr : Bytes) (s : Stream)
    (d : D)
    → Delivers D read holds
    → IsStream s
    → n < 2 ^ 32
    → n ≤ length ptr
    → Took holds (unread s ++ holds d) (fread read 1 n ptr s d)
unfolding fread
fread-Took {D} read holds n ptr s d del v h m =
    let have = s.rend - s.rpos in
    let k = min have n in
    let len : (1 * n) % 2 ^ 32 ≡ n = omega arith in
    let pad : k % 1 ≡ 0 = omega arith in
    let whole : k - 0 ≡ k = omega arith in
    let w = take k (drop s.rpos s.rbuf) in
    let w_len : length w ≡ k =
      omega (arith, length-take k (drop s.rpos s.rbuf), length-drop s.rpos s.rbuf) in
    let ptr1 = w ++ drop (length w) ptr in
    let first : write_at 0 w ptr ≡ some ptr1 = write_at-start w ptr (omega (arith, w_len)) in
    let got : take (length w) ptr1 ≡ w = take-append (length w) w (drop (length w) ptr) refl in
    let s1 = record s { rpos = s.rpos + k } in
    let split : unread s ≡ w ++ unread s1 = unread-split s k (omega arith) in
    let all : unread s ++ holds d ≡ w ++ (unread s1 ++ holds d) =
      ap (λ t. t ++ holds d) split ∙ append_assoc w (unread s1) (holds d) in
    let items : k / 1 ≡ length w = omega (arith, w_len) in
    let got_k : take (k / 1) ptr1 ≡ w = ap (λ j. take j ptr1) items ∙ got in
    let closing : unread s ++ holds d ≡ take (k / 1) ptr1 ++ (unread s1 ++ holds d) =
      all ∙ ap (λ t. t ++ (unread s1 ++ holds d)) (sym got_k) in
    elim (Bool-cases (ltb k n)) [
      | inr c ↦ rw (len, pad, whole, first, c) closing
      | inl c ↦ elim (Bool-cases s.can_read) [
        | inr e ↦ rw (len, pad, whole, first, c, e) closing
        | inl e ↦
            rw (len, pad, whole, first, c, e)
              let s2 = record s { can_read = true; rpos = s.rpos + k } in
                let over : s.rend - (s.rpos + k) ≡ 0 = ground arith in
                let empty : unread s2 ≡ [] = ap (λ j. take j (drop (s.rpos + k) s.rbuf)) over in
                let rest : unread s ++ holds d ≡ w ++ holds d =
                  all ∙ ap (λ t. w ++ (t ++ holds d)) empty in
                subst (λ j. Took holds (unread s ++ holds d) (read_rest read 1 n j 0 ptr1 s2 d))
                  w_len
                  (read_rest-Took read holds (unread s ++ holds d) w ptr1
                    ((read (n - length w) d).bytes) n s2 d del refl empty got
                    (ground (arith, w_len))
                    (omega (
                      arith,
                      w_len,
                      length-append w (drop (length w) ptr),
                      length-drop (length w) ptr,
                    ))
                    rest)
      ]
    ]
