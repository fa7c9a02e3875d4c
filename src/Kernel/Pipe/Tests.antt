-- ===== src/Kernel/Pipe/Tests.antt =====
-- The pipe at concrete buffers.
use yax.Base.{
  false, ℕ, ◌≡◌, refl, min, true, some, [], ◌∷◌, ◌++◌, arith, replicate, take, drop,
  length-replicate,
}
use yax.Codas.Bit.{Bytes}
use yax.Kernel.Pipe.{buf_len, Buf, End, pipe_read, pipe_write, returned, blocked}
use yax.Kernel.Pipe.Fifo.{IsValid, contents, pipe_read-contents, pipe_write-contents}

abbrev both : End
both = record { other = true; writes = true }

abbrev zeros : Bytes
zeros = replicate buf_len 0

-- Three bytes, of which the first two lie at the end of the storage.
abbrev wrapped : Buf
wrapped = record { filled = 3; empty = 4093; begin = 4094; len = 3; buf = zeros }

-- One byte of room.
abbrev nearly_full : Buf
nearly_full = record { filled = 4095; empty = 1; begin = 0; len = 4095; buf = zeros }

wrapped-IsValid : IsValid wrapped
wrapped-IsValid = record {
  size = length-replicate {A = ℕ} buf_len 0;
  in_range = omega arith;
  fits = omega arith;
  filled = refl;
  empty = omega arith;
}

nearly_full-IsValid : IsValid nearly_full
nearly_full-IsValid = record {
  size = length-replicate {A = ℕ} buf_len 0;
  in_range = omega arith;
  fits = omega arith;
  filled = refl;
  empty = omega arith;
}

pipe_read-contents_example :
    (out : Bytes) × (b' : Buf) × (pipe_read both 2 wrapped ≡ some (out, b'))
    × (out ≡ take (min 2 3) (contents wrapped))
    × (contents b' ≡ drop (min 2 3) (contents wrapped))
    × IsValid b'
pipe_read-contents_example = pipe_read-contents both wrapped wrapped-IsValid 2 refl (omega arith)

pipe_write-contents_example :
    (n : ℕ) × (a' : Buf) × (pipe_write both (5 ∷ 6 ∷ []) wrapped ≡ returned n a')
    × (contents a' ≡ contents wrapped ++ (5 ∷ 6 ∷ []))
    × IsValid a'
pipe_write-contents_example =
    pipe_write-contents both (5 ∷ 6 ∷ []) wrapped wrapped-IsValid refl refl (omega arith)

-- The other end has gone.
abbrev alone : End
alone = record { other = false; writes = true }

abbrev one_less : Buf
one_less = record wrapped { empty = 4092 }

pipe_write-alone : pipe_write alone (5 ∷ []) wrapped ≡ returned 0 one_less
unfolding pipe_write yax.Kernel.Pipe.write_loop
pipe_write-alone = refl
