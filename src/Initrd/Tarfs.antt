-- ===== src/Initrd/Tarfs.antt =====
-- initrd/tarfs.c: the file server for the archive that the kernel is started with. The archive is the
-- list of its bytes, a header the place where it begins, which is also its inode number here; `none`
-- is an access outside of an object, or the fuel has run out. `heap n` is what the memory of n bytes
-- holds that `malloc` gives.
pub mod Numbers
pub mod Paths
pub mod Contents
mod Tests
use yax.Base.{
  ℕ, zero, suc, ◌+◌, ◌-◌, ◌*◌, ◌/◌, ◌%◌, ◌^◌, max, Bool, true, false, not, Option, none, some, List,
  [], ◌∷◌, ◌++◌, ◌>>=◌, ltb, leb, ◌==◌, ◌&&◌, if◌then◌else◌, has_bit, length, take, drop, get_or,
}
use yax.Base.Int.{ℤ, pos, negsuc}
use yax.Codas.Bit.{Bytes}
use yax.Libc.Str.{strlen, strcpy, strlcpy, memcmp}
use yax.Libc.Text.{strcat, write_at}
use yax.Libc.Stat.{Stat}

-- The bits of either word, `k` of them.
unfoldable pub or_bits : ℕ → ℕ → ℕ → ℕ
or_bits zero a b = 0
or_bits (suc k) a b = 2 * or_bits k (a / 2) (b / 2) + max (a % 2) (b % 2)

-- `*s - '0'` as a word; characters are signed.
unfoldable pub digit_of : ℕ → ℕ
digit_of c = ((if ltb c 128 then c else c + 2 ^ 32 - 256) + 2 ^ 32 - 48) % 2 ^ 32

unfoldable pub oparse_from : ℕ → Bytes → ℕ → Option ℕ
unfolding or_bits digit_of
oparse_from zero s r = some r
oparse_from (suc l) [] r = none
oparse_from (suc l) (c ∷ s) r = oparse_from l s (or_bits 32 ((r * 8) % 2 ^ 32) (digit_of c))

-- A word as an `int`, and the word of an `int`.
abbrev pub to_int : ℕ → ℤ
to_int w = if ltb w (2 ^ 31) then pos w else negsuc (2 ^ 32 - 1 - w)

abbrev pub to_word : ℤ → ℕ
to_word (pos n) = n
to_word (negsuc n) = 2 ^ 32 - 1 - n

unfoldable pub oparse : Bytes → ℕ → Option ℤ
unfolding oparse_from
oparse s l = do w ← oparse_from l s 0; some (to_int w)

-- The characters up to the terminator.
unfoldable pub text_of : Bytes → Bytes
text_of [] = []
text_of (c ∷ s) = let rest = text_of s in if c == 0 then [] else c ∷ rest

-- The loop of `fname` at `s`, with the last component so far.
unfoldable pub fname_from : (ℕ → Bytes) → Bytes → Bytes → Option Bytes
unfolding text_of
fname_from heap from [] = none
fname_from heap from (c ∷ []) = if c == 0 then some (text_of from) else none
fname_from heap from (c ∷ d ∷ s) =
    let go_on = fname_from heap from (d ∷ s) in
    let next = fname_from heap (d ∷ s) (d ∷ s) in
    if c == 0
    then some (text_of from)
    else if not (c == 47)
    then go_on
    else if d == 0
    then (do
      n ← strlen from
      (w, r) ← strlcpy from n
      ns ← write_at 0 w (heap n)
      some (text_of ns))
    else next

unfoldable pub fname : (ℕ → Bytes) → Bytes → Option Bytes
unfolding fname_from
fname heap s = fname_from heap s s

-- No slash before the last character.
unfoldable pub is_plain : Bytes → Bool
is_plain [] = true
is_plain (c ∷ []) = true
is_plain (c ∷ d ∷ s) = let rest = is_plain (d ∷ s) in if c == 47 then false else rest

-- At the end of a part, the next one follows.
abbrev pub next_part : Bytes → List Bytes → Bytes × List Bytes
next_part [] (p ∷ parts) = (p, parts)
next_part s parts = (s, parts)

-- The comparison, with the parts that follow. Where both strings end at once, the code goes on behind
-- their terminators: `none`.
unfoldable pub subent_from : Bytes → List Bytes → Bytes → Option Bool
unfolding is_plain
subent_from a parts [] = elim ((next_part a parts).0) [
  | [] ↦ none
  | c ∷ s ↦ some (is_plain (c ∷ s))
]
subent_from a parts (d ∷ b) = elim ((next_part a parts).0) [
  | [] ↦ some false
  | c ∷ s ↦ elim (c == d) [ true ↦ subent_from s ((next_part a parts).1) b | false ↦ some false ]
]

-- The strings are those before the terminators.
unfoldable pub subent : Bytes → Bytes → Bytes → Option Bool
unfolding subent_from
subent prefix name path = subent_from prefix ((47 ∷ []) ∷ name ∷ []) path

-- `perm & ~0222`
abbrev clear_write : ℕ → ℕ
clear_write perm =
    perm
    - (if has_bit perm 1 then 2 else 0)
    - (if has_bit perm 4 then 16 else 0)
    - (if has_bit perm 7 then 128 else 0)

-- An `int` as an `off_t`, which is a bit pattern.
abbrev pub to_off : ℤ → ℕ
to_off (pos n) = n
to_off (negsuc n) = 2 ^ 64 - 1 - n

unfoldable pub mkdirent : ℕ → Bool → ℤ → ℤ → Stat
unfolding or_bits
mkdirent j dir perm size = record {
  ino = j;
  mode = or_bits 32 (if dir then 2 ^ 31 else 0) (clear_write (to_word perm));
  size = to_off size;
  atime = 0;
  mtime = 0;
  uid = 0;
  gid = 0;
}

-- The files and directories, with the place of a file's header.
mutual
  pub data Entry : Type 0 where
    file : Stat → Bytes → ℕ → Entry
    dir : Stat → Bytes → Entries → Entry

  pub data Entries : Type 0 where
    end : Entries
    more : Entry → Entries → Entries

-- The path of a directory inside another one, built in fresh memory.
unfoldable pub sub_path : (ℕ → Bytes) → Bytes → Bytes → Option Bytes
unfolding text_of
sub_path heap path name = do
  w ← strcpy (path ++ (0 ∷ []))
  np ← write_at 0 w (heap (length path + length name + 2))
  np ← strcat np (name ++ (0 ∷ []))
  np ← strcat np (47 ∷ 0 ∷ [])
  some (text_of np)

-- The fields of the header at a place that `setupdir` reads: whether the magic is there, the size, and
-- whether the entry stands in the directory.
unfoldable pub is_header : Bytes → ℕ → Option Bool
is_header img f = do
  r ← memcmp (drop (f + 257) img) (117 ∷ 115 ∷ 116 ∷ 97 ∷ 114 ∷ 0 ∷ []) 5
  elim r [ pos zero ↦ some true | _ ↦ some false ]

unfoldable pub stands_in : Bytes → ℕ → Bytes → Option Bool
unfolding text_of subent
stands_in img f path = subent (text_of (drop (f + 345) img)) (text_of (drop f img)) path

-- `f += ((size + 1023) / 512) * 512`; a negative size can lead back, and `none` is a sum that is no `int`
-- or a place before the archive.
unfoldable pub next_header : ℕ → ℤ → Option ℕ
next_header f (pos n) = if ltb (n + 1023) (2 ^ 31) then some (f + (n + 1023) / 512 * 512) else none
next_header f (negsuc n) =
    if ltb n 1023
    then some (f + (1022 - n) / 512 * 512)
    else if leb ((n - 1022) / 512 * 512) f
    then some (f - (n - 1022) / 512 * 512)
    else none

-- The loop over the headers from a place on; a directory's entries are sought from the first header.
unfoldable pub setupdir_from : ℕ → (ℕ → Bytes) → Bytes → Bytes → ℕ → Option Entries
unfolding is_header stands_in oparse fname sub_path mkdirent next_header
setupdir_from zero heap img path f = none
setupdir_from (suc k) heap img path f = do
  header ← is_header img f
  elim header [
    | false ↦ some end
    | true ↦ do
      size ← oparse (drop (f + 124) img) 11
      next ← next_header f size
      here ← stands_in img f path
      elim here [
        | false ↦ setupdir_from k heap img path next
        | true ↦ do
          perm ← oparse (drop (f + 100) img) 6
          name ← fname heap (drop f img)
          let is_dir = get_or img (f + 156) 0 == 53 in
              let st = mkdirent f is_dir perm size in
              elim is_dir [
                | true ↦ do
                  np ← sub_path heap path name
                  inner ← setupdir_from k heap img np 0
                  rest ← setupdir_from k heap img path next
                  some (more (dir st name inner) rest)
                | false ↦ do
                  rest ← setupdir_from k heap img path next
                  some (more (file st name f) rest)
              ]
      ]
  ]

unfoldable pub setupdir : ℕ → (ℕ → Bytes) → Bytes → Bytes → Option Entries
unfolding setupdir_from
setupdir k heap img path = setupdir_from k heap img path 0

-- The number of bytes that a read gives, and where they begin.
abbrev pub tp_len : ℕ → ℕ → ℤ → ℕ
tp_len size len (pos off) = if ltb size (off + len) then size - off else len
tp_len size len (negsuc n) = if ltb (size + suc n) len then size + suc n else len

abbrev pub tp_from : ℕ → ℤ → ℕ
tp_from f (pos off) = f + 512 + off
tp_from f (negsuc n) = f + 512 - suc n

-- The result and the bytes, for a file with its header at `f`.
unfoldable pub tpread : Bytes → ℕ → ℕ → ℕ → ℤ → Option (ℕ × Bytes)
tpread img f size len off =
    let n = tp_len size len off in
    if ltb 0 n && ltb (length img) (tp_from f off + n)
    then none
    else some (n, take n (drop (tp_from f off) img))
