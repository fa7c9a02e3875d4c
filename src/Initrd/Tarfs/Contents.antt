-- ===== src/Initrd/Tarfs/Contents.antt =====
-- initrd/tarfs.c: what a read of a file gives.
use yax.Base.{ℕ, ◌+◌, take, drop}
use yax.Codas.Bit.{Bytes}

-- The bytes of a file behind its header.
abbrev pub contents : Bytes → ℕ → ℕ → Bytes
contents img f size = take size (drop (f + 512) img)
