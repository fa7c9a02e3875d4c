-- ===== src/Kernel/Exec/Image.antt =====
-- src/exec.c: the loading of a program that lies in memory. The bytes that are copied to the segments are
-- listed with their addresses; a segment whose bytes lie behind the program's memory is a fault.
use yax.Base.{
  ℕ, zero, suc, ◌+◌, ◌-◌, ◌*◌, ◌%◌, ◌^◌, true, false, not, Option, none, some, List, [], ◌∷◌, ◌++◌,
  ◌||◌, ltb, ◌==◌, if◌then◌else◌, length, take, drop, replicate,
}
use yax.Codas.Bit.{Bytes, gbit16, gbit32}
use yax.Codes.{enoexec}
use yax.Kernel.Virt.{Vm, Outside}
use yax.Kernel.Virt.Space.{vpgumap}
use yax.Kernel.Virt.Copy.{vpgnew}
use yax.Kernel.Exec.{
  elfident, Segment, prot_of, bad_segment, anonymous_fixed, switch, Started, not_started, stopped,
  give_up, take_over,
}

-- Where bytes are written.
pub record Put : Type 0 where
  pub at : ℕ
  pub bytes : Bytes

abbrev segment_at : Bytes → Segment
segment_at ph = record {
  addr = gbit32 (drop 8 ph);
  size = gbit32 (drop 20 ph);
  lsize = gbit32 (drop 16 ph);
  prot = prot_of (gbit32 (drop 24 ph));
  off = gbit32 (drop 4 ph);
}

-- The bytes of the program, and zeros behind them.
unfoldable pub segment_puts : Bytes → Segment → Option (List Put)
segment_puts buf g =
    if ltb (length buf) (g.off + g.lsize)
    then none
    else some (
        record { at = g.addr; bytes = take g.lsize (drop g.off buf) }
        ∷ record { at = g.addr + g.lsize; bytes = replicate (g.size - g.lsize) 0 }
        ∷ [])

-- How the headers end; `fault` is also the halt without memory, and spent fuel.
pub data Imaged : Type 0 where
  imaged : Vm → List Put → Imaged
  bad_image : Vm → Imaged
  fault : Imaged

-- Headers of the types 2, 3 and 5 are refused, others than 1 passed over.
unfoldable pub image_headers : Outside → ℕ → Bytes → ℕ → ℕ → ℕ → Vm → List Put → ℕ → Imaged
image_headers out fuel buf ph eph phs s puts zero = fault
image_headers out fuel buf ph eph phs s puts (suc k) =
    let kind = gbit32 (drop ph buf) in
    let g = segment_at (drop ph buf) in
    let next = (ph + phs) % 2 ^ 32 in
    if not (ltb ph eph) then imaged s puts else elim (kind == 1) [
      | false ↦ elim ((kind == 2) || ((kind == 3) || (kind == 5))) [
        | true ↦ bad_image s
        | false ↦ image_headers out fuel buf next eph phs s puts k
      ]
      | true ↦ if bad_segment g then bad_image s else elim (segment_puts buf g) [
        | none ↦ fault
        | some more ↦ elim (vpgumap out fuel g.addr g.size g.prot anonymous_fixed s) [
          | none ↦ fault
          | some (p, s') ↦ image_headers out fuel buf next eph phs s' (puts ++ more) k
        ]
      ]
    ]

-- `elfload`, with the bytes written: `cur` is the present directory's address, and `args` the room of
-- the arguments and of the two pointers to them on the stack.
unfoldable pub elfload : Outside → ℕ → Bytes → ℕ → ℕ → Vm → Started × List Put
unfolding image_headers
elfload out fuel buf cur args s =
    let entry = gbit32 (drop 24 buf) in
    let ph = gbit32 (drop 28 buf) in
    let phs = gbit16 (drop 42 buf) in
    let eph = (ph + phs * gbit16 (drop 44 buf)) % 2 ^ 32 in
    elim (vpgnew out s) [
      | none ↦ (stopped, [])
      | some (new, s1) ↦
          let (old, s2) = switch cur new s1 in
          elim (image_headers out fuel buf ph eph phs s2 [] fuel) [
            | imaged s3 puts ↦ (take_over out fuel entry args new.at old s3, puts)
            | bad_image s3 ↦ (give_up fuel new.at old s3, [])
            | fault ↦ (stopped, [])
          ]
    ]

unfoldable pub execmod : Outside → ℕ → Bytes → ℕ → ℕ → Vm → Started × List Put
unfolding elfident elfload
execmod out fuel image cur args s =
    if elfident image (length image)
    then elfload out fuel image cur args s
    else (not_started enoexec s, [])
