-- ===== src/Kernel/Exec/Tests.antt =====
-- The loading of programs at small inputs.
use yax.Base.{ℕ, ◌*◌, ◌^◌, ◌≡◌, ◌≢◌, refl, true, false, none, [], ◌∷◌, arith}
use yax.Codas.Bit.{gbit16, gbit32}
use yax.Kernel.Phys.{no_phys_pg}
use yax.Kernel.Pmap.{null}
use yax.Kernel.Virt.{Vm, Outside}
use yax.Kernel.Exec.{Read, bytes, bad_segment, elfident, load_headers, spent}
use yax.Kernel.Exec.Segments.{load_headers-ends}

abbrev nothing : Vm
nothing = record {
  paging = record {
    dir = λ i. 0;
    tables = λ i j. 0;
    phys = record {
      rootrgn = no_phys_pg;
      rootppg = no_phys_pg;
      next = λ p. no_phys_pg;
      len = λ p. 0;
    };
  };
  owners = null;
  pages = λ a. record {
    rc = 1;
    p = no_phys_pg;
    prot = 3;
    noshare = false;
    conn = 0;
    off = 0;
    start = 0;
    len = 0;
  };
  heap = [];
  conn_refs = [];
  mem = λ a. 0;
}

abbrev outside : Outside
outside = record { malloc = λ h. 65536; mpread = λ c n o k. none; kernel_pd = λ i. 0 }

-- Two headers of a type that is passed over.
abbrev zeros : ℕ → ℕ → Read
zeros off len = bytes (0 ∷ 0 ∷ 0 ∷ 0 ∷ [])

load_headers-ends_example : load_headers outside 8 zeros 5 52 116 32 nothing 3 ≢ spent
load_headers-ends_example =
    load_headers-ends outside 8 zeros 5 52 116 32 2 3 nothing (omega arith) (omega arith)
      (omega arith)

-- A segment in the kernel whose end wraps around is let through.
kernel_segment :
    bad_segment (record { addr = 15 * 2 ^ 28; size = 2 ^ 29; lsize = 256; prot = 7; off = 0 })
    ≡ false
kernel_segment = refl

-- A header's first 32 bytes.
header :
    elfident
      (127 ∷ 69 ∷ 76 ∷ 70 ∷ 1 ∷ 1 ∷ 1 ∷ 0 ∷ 0 ∷ 0 ∷ 0 ∷ 0 ∷ 0 ∷ 0 ∷ 0 ∷ 0 ∷ 2 ∷ 0 ∷ 3 ∷ 0 ∷ 1 ∷ 0
        ∷ 0 ∷ 0 ∷ [])
      24
    ≡ true
unfolding elfident gbit16 gbit32
header = refl
