-- ===== src/Kernel/Exec.antt =====
-- src/exec.c: the check of a program's header, and the loading of its segments from a connection.
-- `none` is the halt without memory; `rd` is the reading from the connection, by offset and length,
-- which gives the bytes or the number of an error. The bytes that are pushed on the
-- new stack are not modelled.
pub mod Segments
pub mod Image
mod Tests
use yax.Base.{
  ℕ, zero, suc, ◌+◌, ◌-◌, ◌*◌, ◌/◌, ◌%◌, ◌^◌, Bool, true, false, not, Option, none, some, List, [],
  ◌∷◌, ◌&&◌, ◌||◌, ltb, leb, ◌==◌, if◌then◌else◌, has_bit, ◌>>=◌, length, drop,
}
use yax.Codas.Bit.{Bytes, gbit8, gbit16, gbit32}
use yax.Codes.{enoexec, eio}
use yax.Kernel.Phys.{pg_len}
use yax.Kernel.Paging.{virt}
use yax.Kernel.Virt.{Vm, Outside}
use yax.Kernel.Virt.Space.{vpgumap, vpgfmap}
use yax.Kernel.Virt.Copy.{Child, vpgnew, vpgclear, vpgdel}

-- The four characters that an executable begins with.
abbrev pub has_magic : Bytes → Bool
has_magic b =
    (gbit8 b == 127)
    && ((gbit8 (drop 1 b) == 69) && ((gbit8 (drop 2 b) == 76) && (gbit8 (drop 3 b) == 70)))

-- A test of the bytes at `k` that are there when `len` is at least `n`.
abbrev pub wrong : ℕ → ℕ → Bool → Bool
wrong len n ok = leb n len && not ok

unfoldable pub elfident : Bytes → ℕ → Bool
elfident b len =
    if ltb len 4 || not (has_magic b)
    then false
    else if wrong len 5 (gbit8 (drop 4 b) == 1)
    then false
    else if wrong len 6 (gbit8 (drop 5 b) == 1)
    then false
    else if wrong len 7 (gbit8 (drop 6 b) == 1)
    then false
    else if wrong len 8 (gbit8 (drop 7 b) == 0)
    then false
    else if wrong len 18 (gbit16 (drop 16 b) == 2)
    then false
    else if wrong len 20 (gbit16 (drop 18 b) == 3)
    then false
    else if wrong len 24 (gbit32 (drop 20 b) == 1)
    then false
    else if wrong len 40 (gbit32 (drop 36 b) == 0)
    then false
    else if wrong len 44 (not (ltb (gbit32 (drop 40 b)) 52))
    then false
    else true

-- What a read gives.
pub data Read : Type 0 where
  bytes : Bytes → Read
  failed : ℕ → Read

-- `epread`: fewer bytes than asked for are an error.
unfoldable pub epread : (ℕ → ℕ → Read) → ℕ → ℕ → Read
epread rd len off = elim (rd off len) [
  | failed e ↦ failed e
  | bytes b ↦ if ltb (length b) len then failed eio else bytes b
]

-- A program header, as far as it is read.
pub record Segment : Type 0 where
  pub addr : ℕ
  pub size : ℕ
  pub lsize : ℕ
  pub prot : ℕ
  pub off : ℕ

-- The flags of a segment as the protection of its pages.
abbrev pub prot_of : ℕ → ℕ
prot_of rprot =
    (if has_bit rprot 0 then 4 else 0)
    + (if has_bit rprot 1 then 2 else 0)
    + (if has_bit rprot 2 then 1 else 0)

-- The type of the header at `ph`, with the segment where it is one that is loaded.
pub data Header : Type 0 where
  load : Segment → Header
  ignored : Header
  unknown : Header
  unread : ℕ → Header

abbrev pub then_read : Read → (Bytes → Header) → Header
then_read r f = elim r [ failed e ↦ unread e | bytes b ↦ f b ]

unfoldable pub read_segment : (ℕ → ℕ → Read) → ℕ → Header
unfolding epread
read_segment rd ph = then_read (epread rd 4 (ph + 4)) (λ o. then_read (epread rd 4 (ph + 8)) (λ a.
    then_read (epread rd 4 (ph + 16)) (λ l. then_read (epread rd 4 (ph + 20)) (λ z.
      then_read (epread rd 4 (ph + 24)) (λ r. load (record {
        addr = gbit32 a;
        size = gbit32 z;
        lsize = gbit32 l;
        prot = prot_of (gbit32 r);
        off = gbit32 o;
      }))))))

unfoldable pub read_header : (ℕ → ℕ → Read) → ℕ → Header
unfolding read_segment
read_header rd ph = then_read (epread rd 4 ph) (λ b.
    if gbit32 b == 1
    then read_segment rd ph
    else if (gbit32 b == 0) || (gbit32 b == 4)
    then ignored
    else unknown)

-- The test of a segment.
abbrev pub bad_segment : Segment → Bool
bad_segment g =
    ltb g.size g.lsize || ((g.addr / pg_len == 0) || ltb virt ((g.addr + g.size) % 2 ^ 32))

-- The bytes of the segment up to the end of the last page with bytes of the file.
abbrev pub file_room : Segment → ℕ
file_room g = g.lsize + pg_len - (g.addr + g.lsize) % 2 ^ 32 % pg_len

-- `MAP_PRIVATE | MAP_FIXED` and `MAP_ANONYMOUS | MAP_FIXED`
abbrev pub private_fixed : ℕ
private_fixed = 5

abbrev pub anonymous_fixed : ℕ
anonymous_fixed = 6

-- A segment's file and the memory behind it, where there is more of it than what fills the last page.
unfoldable pub map_segment : Outside → ℕ → ℕ → Segment → Vm → Option Vm
map_segment out fuel c g s = do
  (p, s1) ← vpgfmap out fuel g.addr g.lsize g.prot private_fixed c g.off s
  let more = (g.size + 2 ^ 32 - file_room g % 2 ^ 32) % 2 ^ 32
  (if (more == 0) || leb (2 ^ 31) more then some s1 else (do
    (q, s2) ← vpgumap out fuel ((g.addr + file_room g) % 2 ^ 32) more g.prot anonymous_fixed s1
    some s2))

-- How the headers end.
pub data Loaded : Type 0 where
  loaded : Vm → Loaded
  no_exec : Vm → Loaded
  read_error : ℕ → Vm → Loaded
  halted : Loaded
  spent : Loaded

-- The headers from `ph` up to `eph`, `phs` bytes apart, on fuel.
unfoldable pub load_headers : Outside → ℕ → (ℕ → ℕ → Read) → ℕ → ℕ → ℕ → ℕ → Vm → ℕ → Loaded
load_headers out fuel rd c ph eph phs s zero = spent
load_headers out fuel rd c ph eph phs s (suc k) =
    let next = (ph + phs) % 2 ^ 32 in
    if not (ltb ph eph) then loaded s else elim (read_header rd ph) [
      | load g ↦ if bad_segment g then no_exec s else elim (map_segment out fuel c g s) [
        | none ↦ halted
        | some s' ↦ load_headers out fuel rd c next eph phs s' k
      ]
      | ignored ↦ load_headers out fuel rd c next eph phs s k
      | unknown ↦ no_exec s
      | unread e ↦ read_error e s
    ]

-- `switchpgdir`: the present space, with its address, and another one change places.
abbrev pub switch : ℕ → Child → Vm → Child × Vm
switch cur c s = (
  record { at = cur; dir = s.paging.dir; tables = s.paging.tables },
  record s { paging = record s.paging { dir = c.dir; tables = c.tables } },
)

-- `MAP_ANONYMOUS | MAP_FIXED | MAP_NOSHARE`
abbrev pub stack_flags : ℕ
stack_flags = 22

-- How the loading ends: the entry, the stack pointer and the state, or an error; after a read that
-- fails behind the start of the new space, that one stays.
pub data Started : Type 0 where
  started : ℕ → ℕ → Vm → Started
  not_started : ℕ → Vm → Started
  stopped : Started

-- The new space is cleared and the old one comes back.
unfoldable pub give_up : ℕ → ℕ → Child → Vm → Started
give_up fuel new old s = elim (vpgclear fuel s) [
  | none ↦ stopped
  | some s1 ↦ not_started enoexec (vpgdel new (switch new old s1).1)
]

-- The stack of the new space is made, and the old space is cleared.
unfoldable pub take_over : Outside → ℕ → ℕ → ℕ → ℕ → Child → Vm → Started
take_over out fuel entry sp new old s =
    elim (vpgumap out fuel (virt - pg_len) pg_len 3 stack_flags s) [
      | none ↦ stopped
      | some (stack, s1) ↦
          let (c, s2) = switch new old s1 in
          elim (vpgclear fuel s2) [
            | none ↦ stopped
            | some s3 ↦ started entry (stack + pg_len - sp) (vpgdel old.at (switch old.at c s3).1)
          ]
    ]

-- The segments are loaded into a new space. `cur` is the directory's address, and `args` the room of
-- the arguments and of the two pointers to them on the stack.
unfoldable pub load_program :
    Outside → ℕ → (ℕ → ℕ → Read) → ℕ → ℕ → ℕ → ℕ → ℕ → ℕ → ℕ → Vm → Started
unfolding load_headers give_up take_over
load_program out fuel rd c cur args entry ph eph phs s = elim (vpgnew out s) [
  | none ↦ stopped
  | some (new, s1) ↦
      let (old, s2) = switch cur new s1 in
      elim (load_headers out fuel rd c ph eph phs s2 fuel) [
        | loaded s3 ↦ take_over out fuel entry args new.at old s3
        | no_exec s3 ↦ give_up fuel new.at old s3
        | read_error e s3 ↦ not_started e s3
        | halted ↦ stopped
        | spent ↦ stopped
      ]
]

abbrev pub then_word : Read → Vm → (Bytes → Started) → Started
then_word r s f = elim r [ failed e ↦ not_started e s | bytes b ↦ f b ]

unfoldable pub elfrun : Outside → ℕ → (ℕ → ℕ → Read) → ℕ → ℕ → ℕ → Vm → Started
unfolding load_program epread
elfrun out fuel rd c cur args s = then_word (epread rd 4 24) s (λ e.
    then_word (epread rd 4 28) s (λ p. then_word (epread rd 2 42) s (λ z.
      then_word (epread rd 2 44) s (λ n.
        let eph = (gbit32 p + gbit16 z * gbit16 n) % 2 ^ 32 in
        load_program out fuel rd c cur args (gbit32 e) (gbit32 p) eph (gbit16 z) s))))

-- `exec`: the header is what the first read gives, at most 32 bytes.
unfoldable pub exec : Outside → ℕ → (ℕ → ℕ → Read) → ℕ → ℕ → ℕ → Vm → Started
unfolding elfident elfrun
exec out fuel rd c cur args s = elim (rd 0 32) [
  | failed e ↦ not_started e s
  | bytes b ↦
      if elfident b (length b) then elfrun out fuel rd c cur args s else not_started enoexec s
]
