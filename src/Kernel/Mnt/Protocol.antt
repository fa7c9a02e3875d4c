-- ===== src/Kernel/Mnt/Protocol.antt =====
-- The two ends of the message protocol fit together: what the kernel writes is what libyaxfs reads,
-- and the answer that libyaxfs writes completes the call that it answers.
use yax.Base.{
  true, false, Bool, leb, ap, ◌∙◌, take, drop, take-all, take-append, drop-all, none, ◌≢◌, ◌⊎◌,
  length, length-append, some, length, List, ==_self, length-append, ◌∷◌, ℕ, ◌+◌, ◌-◌, ◌^◌, ◌<◌,
  ◌≤◌, ◌≡◌, refl, [], ◌++◌, arith, if◌then◌else◌, has_bit, append-nil, append_assoc, Bool-cases,
  inl, inr,
}
use yax.Codes.{einval, wants_off, wants_ptr, wants_ptr2}
use yax.Codas.Bit.{
  gbit32, length-pbit64, Bytes, pbit32, pbit64, gbit32-pbit32, gbit64-pbit64, length-pbit32,
  drop-pbit32,
}
use yax.Yaxfs.Serve.{
  decode, buf_size, answer, recv_head, recv_ptr2, recv_off, recv_ptr, Request, recv,
}
use yax.Kernel.Mnt.{
  neg, pos, sfn_swrite, take_msg, Server, finish, emit_off, emit_head, emit_ptr2, serialize, Msg,
  Reading, emit_ptr,
}

-- The fields of a message are words of their sizes.
pub record IsWords (m : Msg) : Type 0 where
  pub fn : m.fn < 2 ^ 32
  pub submsg : m.submsg < 2 ^ 32
  pub fid : m.fid < 2 ^ 32
  pub len : m.len < 2 ^ 32
  pub len2 : m.len2 < 2 ^ 32
  pub off : m.off < 2 ^ 64

-- The message with the addresses that the server is given.
abbrev pub mapped : ℕ → ℕ → Msg → Msg
mapped addr addr2 m = record m {
  buf = (if has_bit m.fn wants_ptr then addr else m.buf);
  buf2 = (if has_bit m.fn wants_ptr2 then addr2 else m.buf2);
}

-- The width of an optional part.
abbrev pub width : ℕ → ℕ → ℕ
width fn bit = if has_bit fn bit then 8 else 0

-- How many bytes a message takes.
abbrev pub wire_length : Msg → ℕ
wire_length m = 12 + width m.fn wants_ptr + width m.fn wants_ptr2 + width m.fn wants_off

-- The bytes of a whole message.
abbrev pub wire : ℕ → ℕ → Msg → Bytes
wire addr addr2 m =
    pbit32 m.fn
    ++ (pbit32 m.fid
        ++ (pbit32 m.submsg
            ++ ((if has_bit m.fn wants_ptr then pbit32 m.len ++ pbit32 addr else [])
                ++ ((if has_bit m.fn wants_ptr2 then pbit32 m.len2 ++ pbit32 addr2 else [])
                    ++ (if has_bit m.fn wants_off then pbit64 m.off else [])))))

-- What the server makes of it: the fields that the message carries, the others as they were.
abbrev pub received : Request → ℕ → ℕ → Msg → Request
received q addr addr2 m = record q {
  fn = m.fn;
  submsg = m.submsg;
  fid = m.fid;
  len = (if has_bit m.fn wants_ptr then m.len else q.len);
  buf = (if has_bit m.fn wants_ptr then addr else q.buf);
  len2 = (if has_bit m.fn wants_ptr2 then m.len2 else q.len2);
  buf2 = (if has_bit m.fn wants_ptr2 then addr2 else q.buf2);
  off = (if has_bit m.fn wants_off then m.off else q.off);
}

abbrev wire_ptr : ℕ → Msg → Bytes
wire_ptr addr m = if has_bit m.fn wants_ptr then pbit32 m.len ++ pbit32 addr else []

abbrev wire_ptr2 : ℕ → Msg → Bytes
wire_ptr2 addr2 m = if has_bit m.fn wants_ptr2 then pbit32 m.len2 ++ pbit32 addr2 else []

abbrev wire_off : Msg → Bytes
wire_off m = if has_bit m.fn wants_off then pbit64 m.off else []

recv_ptr-wire :
    (q : Request) (addr : ℕ) (m : Msg) (r : Bytes)
    → IsWords m
    → addr < 2 ^ 32
    → q.fn ≡ m.fn
    → recv_ptr q (wire_ptr addr m ++ r) ≡ (
      record q {
        len = (if has_bit m.fn wants_ptr then m.len else q.len);
        buf = (if has_bit m.fn wants_ptr then addr else q.buf);
      },
      r,
    )
unfolding recv_ptr
recv_ptr-wire q addr m r w a e = elim (Bool-cases (has_bit m.fn wants_ptr)) [
  | inl t ↦ simp (e, t, append_assoc, drop-pbit32, gbit32-pbit32) (ground arith)
  | inr t ↦ simp (e, t) (ground arith)
]

recv_ptr2-wire :
    (q : Request) (addr : ℕ) (m : Msg) (r : Bytes)
    → IsWords m
    → addr < 2 ^ 32
    → q.fn ≡ m.fn
    → recv_ptr2 q (wire_ptr2 addr m ++ r) ≡ (
      record q {
        len2 = (if has_bit m.fn wants_ptr2 then m.len2 else q.len2);
        buf2 = (if has_bit m.fn wants_ptr2 then addr else q.buf2);
      },
      r,
    )
unfolding recv_ptr2
recv_ptr2-wire q addr m r w a e = elim (Bool-cases (has_bit m.fn wants_ptr2)) [
  | inl t ↦ simp (e, t, append_assoc, drop-pbit32, gbit32-pbit32) (ground arith)
  | inr t ↦ simp (e, t) (ground arith)
]

recv_off-wire :
    (q : Request) (m : Msg) (r : Bytes)
    → IsWords m
    → q.fn ≡ m.fn
    → recv_off q (wire_off m ++ r)
      ≡ some (record q { off = (if has_bit m.fn wants_off then m.off else q.off) })
unfolding recv_off
recv_off-wire q m r w e = elim (Bool-cases (has_bit m.fn wants_off)) [
  | inl t ↦
      let long = length-append (pbit64 m.off) r in
      let size = length-pbit64 m.off in simp (e, t, gbit64-pbit64) (ground arith)
  | inr t ↦ simp (e, t) (ground arith)
]

recv_head-wire :
    (q : Request) (m : Msg) (r : Bytes)
    → IsWords m
    → recv_head q (pbit32 m.fn ++ (pbit32 m.fid ++ (pbit32 m.submsg ++ r)))
      ≡ (record q { fn = m.fn; fid = m.fid; submsg = m.submsg }, r)
unfolding recv_head
recv_head-wire q m r w = simp (drop-pbit32, gbit32-pbit32) (ground arith)

-- The parts before the offset.
front : ℕ → ℕ → Msg → Bytes
front addr addr2 m =
    pbit32 m.fn ++ (pbit32 m.fid ++ (pbit32 m.submsg ++ (wire_ptr addr m ++ wire_ptr2 addr2 m)))

wire-front : (addr addr2 : ℕ) (m : Msg) → wire addr addr2 m ≡ front addr addr2 m ++ wire_off m
unfolding front
wire-front addr addr2 m = simp append_assoc refl

length-part :
    (c : Bool) (a b : ℕ) → length (if c then pbit32 a ++ pbit32 b else []) ≡ (if c then 8 else 0)
length-part true a b =
    omega (arith, length-append (pbit32 a) (pbit32 b), length-pbit32 a, length-pbit32 b)
length-part false a b = refl

length-off : (c : Bool) (a : ℕ) → length (if c then pbit64 a else []) ≡ (if c then 8 else 0)
length-off true a = length-pbit64 a
length-off false a = refl

length-front :
    (addr addr2 : ℕ) (m : Msg)
    → length (front addr addr2 m) ≡ 12 + width m.fn wants_ptr + width m.fn wants_ptr2
unfolding front
length-front addr addr2 m =
    let p = wire_ptr addr m in
    let p2 = wire_ptr2 addr2 m in
    omega (
      arith,
      length-append (pbit32 m.fn) (pbit32 m.fid ++ (pbit32 m.submsg ++ (p ++ p2))),
      length-append (pbit32 m.fid) (pbit32 m.submsg ++ (p ++ p2)),
      length-append (pbit32 m.submsg) (p ++ p2),
      length-append p p2,
      length-pbit32 m.fn,
      length-pbit32 m.fid,
      length-pbit32 m.submsg,
      length-part (has_bit m.fn wants_ptr) m.len addr,
      length-part (has_bit m.fn wants_ptr2) m.len2 addr2,
    )

length-wire : (addr addr2 : ℕ) (m : Msg) → length (wire addr addr2 m) ≡ wire_length m
length-wire addr addr2 m =
    let parts = ap length (wire-front addr addr2 m) in
    omega (
      arith,
      parts,
      length-append (front addr addr2 m) (wire_off m),
      length-front addr addr2 m,
      length-off (has_bit m.fn wants_off) m.off,
    )

-- The request before its offset is read.
fronted : Request → ℕ → ℕ → Msg → Request
fronted q addr addr2 m = record (received q addr addr2 m) { off = q.off }

decode-front :
    (q : Request) (addr addr2 : ℕ) (m : Msg) (r : Bytes)
    → IsWords m
    → addr < 2 ^ 32
    → addr2 < 2 ^ 32
    → decode q (front addr addr2 m ++ r) ≡ recv_off (fronted q addr addr2 m) r
unfolding decode front fronted
decode-front q addr addr2 m r w a b =
    let q0 : Request = record q { fn = m.fn; fid = m.fid; submsg = m.submsg } in
    let q1 : Request = record q0 {
      len = (if has_bit m.fn wants_ptr then m.len else q.len);
      buf = (if has_bit m.fn wants_ptr then addr else q.buf);
    } in
    simp append_assoc (
      rw (recv_head-wire q m (wire_ptr addr m ++ (wire_ptr2 addr2 m ++ r)) w) (
        rw (recv_ptr-wire q0 addr m (wire_ptr2 addr2 m ++ r) w a refl)
          (rw (recv_ptr2-wire q1 addr2 m r w b refl) refl)))

recv-fits :
    (q : Request) (buf : Bytes) (addr addr2 : ℕ) (m : Msg)
    → IsWords m
    → addr < 2 ^ 32
    → addr2 < 2 ^ 32
    → wire_length m ≤ buf_size
    → recv q buf (wire addr addr2 m) ≡ some (received q addr addr2 m)
unfolding recv
recv-fits q buf addr addr2 m w a b h =
    let all : take buf_size (wire addr addr2 m) ≡ wire addr addr2 m =
      take-all buf_size (wire addr addr2 m) (omega (arith, length-wire addr addr2 m)) in
    let r = drop (length (wire addr addr2 m)) buf in
    let split : wire addr addr2 m ++ r ≡ front addr addr2 m ++ (wire_off m ++ r) =
      ap (λ t. t ++ r) (wire-front addr addr2 m)
      ∙ append_assoc (front addr addr2 m) (wire_off m) r in
    rw all (
      ap (decode q) split
      ∙ decode-front q addr addr2 m (wire_off m ++ r) w a b
      ∙ recv_off-wire (fronted q addr addr2 m) m r w (unfold fronted in refl)
      ∙ (unfold fronted in refl))

recv-overruns :
    (q : Request) (buf : Bytes) (addr addr2 : ℕ) (m : Msg)
    → IsWords m
    → addr < 2 ^ 32
    → addr2 < 2 ^ 32
    → length buf ≡ buf_size
    → buf_size < wire_length m
    → recv q buf (wire addr addr2 m) ≡ none
unfolding recv
recv-overruns q buf addr addr2 m w a b l h =
    let off : has_bit m.fn wants_off ≡ true = ground arith in
    let full : length (front addr addr2 m) ≡ buf_size = ground (arith, length-front addr addr2 m) in
    let got : take buf_size (wire addr addr2 m) ≡ front addr addr2 m =
      ap (take buf_size) (wire-front addr addr2 m)
      ∙ take-append buf_size (front addr addr2 m) (wire_off m) full in
    let rest : drop (length (front addr addr2 m)) buf ≡ [] =
      drop-all (length (front addr addr2 m)) buf (omega arith) in
    rw got (
      ap (λ t. decode q (front addr addr2 m ++ t)) rest
      ∙ decode-front q addr addr2 m [] w a b
      ∙ (unfold recv_off fronted in rw off refl))

-- `recv` reads from the bytes of a message whose fields and buffer addresses are words of their
-- sizes, where they fit its array of 28 bytes, the message itself: its number, fid and submessage, the
-- buffers at the addresses given and the offset where the message has them, and what the request held
-- before in every other field. A message that is longer, with two buffers and an offset, makes it read
-- behind the array.
pub recv-wire :
    (q : Request) (buf : Bytes) (addr addr2 : ℕ) (m : Msg)
    → IsWords m
    → addr < 2 ^ 32
    → addr2 < 2 ^ 32
    → length buf ≡ buf_size
    → recv q buf (wire addr addr2 m)
      ≡ (if leb (wire_length m) buf_size then some (received q addr addr2 m) else none)
recv-wire q buf addr addr2 m w a b l = elim (Bool-cases (leb (wire_length m) buf_size)) [
  | inl c ↦ rw c (recv-fits q buf addr addr2 m w a b (ground arith))
  | inr c ↦ rw c (recv-overruns q buf addr addr2 m w a b l (ground arith))
]

-- Where a part of the message starts at the place that the read has come to, and there is room for
-- its bytes.
record AtPart (o : Reading) (msgpos w : ℕ) : Type 0 where
  here : o.read ≡ msgpos
  room : w ≤ o.len
  small : o.len < 2 ^ 32

emit_ptr-wire :
    (addr : ℕ) (o : Reading) (msgpos : ℕ)
    → AtPart o msgpos (width (o.msg.fn) wants_ptr)
    → emit_ptr addr o msgpos ≡ (
      record {
        read = msgpos + width (o.msg.fn) wants_ptr;
        len = o.len - width (o.msg.fn) wants_ptr;
        out = o.out ++ wire_ptr addr o.msg;
        msg = record (o.msg) { buf = (if has_bit (o.msg.fn) wants_ptr then addr else o.msg.buf) };
      },
      msgpos + width (o.msg.fn) wants_ptr,
    )
unfolding emit_ptr
emit_ptr-wire addr o msgpos h = elim (Bool-cases (has_bit (o.msg.fn) wants_ptr)) [
  | inl t ↦ rw t (
      ground (
        arith,
        length-pbit32 (o.msg.len),
        length-pbit32 addr,
        append_assoc o.out (pbit32 (o.msg.len)) (pbit32 addr),
      ))
  | inr t ↦ rw t (ground (arith, append-nil o.out))
]

emit_ptr2-wire :
    (addr : ℕ) (o : Reading) (msgpos : ℕ)
    → AtPart o msgpos (width (o.msg.fn) wants_ptr2)
    → emit_ptr2 addr o msgpos ≡ (
      record {
        read = msgpos + width (o.msg.fn) wants_ptr2;
        len = o.len - width (o.msg.fn) wants_ptr2;
        out = o.out ++ wire_ptr2 addr o.msg;
        msg = record (o.msg) {
          buf2 = (if has_bit (o.msg.fn) wants_ptr2 then addr else o.msg.buf2);
        };
      },
      msgpos + width (o.msg.fn) wants_ptr2,
    )
unfolding emit_ptr2
emit_ptr2-wire addr o msgpos h = elim (Bool-cases (has_bit (o.msg.fn) wants_ptr2)) [
  | inl t ↦ rw t (
      ground (
        arith,
        length-pbit32 (o.msg.len2),
        length-pbit32 addr,
        append_assoc o.out (pbit32 (o.msg.len2)) (pbit32 addr),
      ))
  | inr t ↦ rw t (ground (arith, append-nil o.out))
]

emit_off-wire :
    (o : Reading) (msgpos : ℕ)
    → AtPart o msgpos (width (o.msg.fn) wants_off)
    → emit_off o msgpos ≡ (
      record {
        read = msgpos + width (o.msg.fn) wants_off;
        len = o.len - width (o.msg.fn) wants_off;
        out = o.out ++ wire_off o.msg;
        msg = o.msg;
      },
      msgpos + width (o.msg.fn) wants_off,
    )
unfolding emit_off
emit_off-wire o msgpos h = elim (Bool-cases (has_bit (o.msg.fn) wants_off)) [
  | inl t ↦ rw t (ground (arith, length-pbit64 (o.msg.off)))
  | inr t ↦ rw t (ground (arith, append-nil o.out))
]

emit_head-wire :
    (m : Msg) (len : ℕ)
    → 12 ≤ len
    → len < 2 ^ 32
    → emit_head (record { read = 0; len = len; out = []; msg = m }) ≡ record {
      read = 12;
      len = len - 12;
      out = pbit32 m.fn ++ (pbit32 m.fid ++ pbit32 m.submsg);
      msg = m;
    }
unfolding emit_head
emit_head-wire m len h k = ground (
  arith,
  length-pbit32 m.fn,
  length-pbit32 m.fid,
  length-pbit32 m.submsg,
  append_assoc (pbit32 m.fn) (pbit32 m.fid) (pbit32 m.submsg),
)

-- A read with room for a whole message, in a buffer whose length is a 32-bit word, at the start of a
-- message, writes all of it, files it as pending with the addresses of its mapped buffers, and is
-- ready for the next one.
pub serialize-wire :
    (addr addr2 len : ℕ) (s : Server)
    → s.read ≡ 0
    → wire_length s.msg ≤ len
    → len < 2 ^ 32
    → let x = serialize addr addr2 s len in
      (x.out ≡ wire addr addr2 s.msg)
      × (x.server.read ≡ 0)
      × (x.server.msgs ≡ mapped addr addr2 s.msg ∷ s.msgs)
unfolding serialize finish
serialize-wire addr addr2 len s h p q =
    let fn : ℕ = s.msg.fn in
    let o1 : Reading = record {
      read = 12;
      len = len - 12;
      out = pbit32 (s.msg.fn) ++ (pbit32 (s.msg.fid) ++ pbit32 (s.msg.submsg));
      msg = s.msg;
    } in
    let o2 : Reading = record {
      read = 12 + width (s.msg.fn) wants_ptr;
      len = len - 12 - width (s.msg.fn) wants_ptr;
      out = o1.out ++ wire_ptr addr s.msg;
      msg = record (s.msg) { buf = (if has_bit (s.msg.fn) wants_ptr then addr else s.msg.buf) };
    } in
    let o3 : Reading = record {
      read = 12 + width (s.msg.fn) wants_ptr + width (s.msg.fn) wants_ptr2;
      len = len - 12 - width (s.msg.fn) wants_ptr - width (s.msg.fn) wants_ptr2;
      out = o2.out ++ wire_ptr2 addr2 s.msg;
      msg = mapped addr addr2 s.msg;
    } in
    rw (h, emit_head-wire s.msg len (omega arith) q)
      (rw (emit_ptr-wire addr o1 12 (ground arith)) (
        rw (emit_ptr2-wire addr2 o2 (12 + width (s.msg.fn) wants_ptr) (ground arith)) (
          rw
            (emit_off-wire o3 (12 + width (s.msg.fn) wants_ptr + width (s.msg.fn) wants_ptr2)
              (ground arith))
            (rw
              (==_self (
                12
                + width (s.msg.fn) wants_ptr
                + width (s.msg.fn) wants_ptr2
                + width (s.msg.fn) wants_off))
              (simp append_assoc (refl, refl, refl))))))

-- The first message of the fid comes off the list.
take_msg-cons :
    (m : Msg) (ms : List Msg) (fid : ℕ) → m.fid ≡ fid → take_msg fid (m ∷ ms) ≡ some (m, ms)
unfolding take_msg
take_msg-cons m ms fid e = rw (e, ==_self fid)

-- Where the message filed last is the first of the pending ones and its fid and the result are
-- words, the answer that libyaxfs writes for that fid completes the message with the result, and
-- takes just that message off the list and its buffers out of the server.
pub sfn_swrite-answer :
    (s : Server) (ms : List Msg) (m : Msg) (ret : ℕ)
    → s.msgs ≡ m ∷ ms
    → m.fid < 2 ^ 32
    → ret < 2 ^ 64
    → let x = sfn_swrite s (answer m.fid ret) in
      (x.finished ≡ some (record m { ret = ret }))
      × (x.server ≡ record s { msgs = ms })
      × (x.result ≡ pos 12)
      × (x.unmapped
          ≡ (if has_bit m.fn wants_ptr then m.buf ∷ [] else [])
            ++ (if has_bit m.fn wants_ptr2 then m.buf2 ∷ [] else []))
unfolding sfn_swrite answer
sfn_swrite-answer s ms m ret e p q = ground (
  arith,
  gbit32-pbit32 m.fid (pbit64 ret),
  drop-pbit32 m.fid (pbit64 ret),
  gbit64-pbit64 ret [],
  append-nil (pbit64 ret),
  length-append (pbit32 m.fid) (pbit64 ret),
  length-pbit32 m.fid,
  length-pbit64 ret,
  take_msg-cons m ms m.fid refl,
)

-- An answer for a fid that no pending message has, or of another size than twelve bytes, is refused
-- with EINVAL and changes nothing.
pub sfn_swrite-refused :
    (s : Server) (b : Bytes)
    → (length b ≢ 12) ⊎ (take_msg (gbit32 b) s.msgs ≡ none)
    → let x = sfn_swrite s b in
      (x.result ≡ neg einval) × (x.server ≡ s) × (x.finished ≡ none) × (x.unmapped ≡ [])
unfolding sfn_swrite
sfn_swrite-refused s b h = ground arith
