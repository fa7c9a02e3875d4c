-- ===== src/Kernel/Exec/Segments.antt =====
-- src/exec.c: the end of the loader's loop.
use yax.Base.{
  ℕ, zero, suc, ◌+◌, ◌*◌, ◌%◌, ◌^◌, ◌<◌, ◌≡◌, ◌≢◌, false, ltb, arith, refl, Bool-cases, inl, inr,
  Option-cases, ◌⊎◌,
}
use yax.Kernel.Virt.{Vm, Outside}
use yax.Kernel.Exec.{
  Read, Segment, bad_segment, Header, load, ignored, unknown, unread, read_header, map_segment,
  spent, load_headers,
}

Header-cases :
    (h : Header)
    → ((g : Segment) × (h ≡ load g)) ⊎ (h ≡ ignored) ⊎ (h ≡ unknown) ⊎ ((e : ℕ) × (h ≡ unread e))
Header-cases (load g) = inl (g, refl)
Header-cases ignored = inr (inl refl)
Header-cases unknown = inr (inr (inl refl))
Header-cases (unread e) = inr (inr (inr (e, refl)))

-- For a table of headers that ends below the end of the address space, a round for each header and one
-- more are enough for the loop over them, whatever the headers hold. Inside a round the map of a segment
-- may be the end of it all: it can halt, and a range up to the end of the address space has no end.
pub load_headers-ends :
    (out : Outside) (fuel : ℕ) (rd : ℕ → ℕ → Read) (c ph eph phs n k : ℕ) (s : Vm)
    → eph ≡ ph + n * phs
    → eph < 2 ^ 32
    → n < k
    → load_headers out fuel rd c ph eph phs s k ≢ spent
unfolding load_headers
load_headers-ends out fuel rd c ph eph phs n zero s a b l = absurd (omega arith)
load_headers-ends out fuel rd c ph eph phs zero (suc k) s a b l =
    let done : ltb ph eph ≡ false = ground arith in rw (done, load_headers) (λ e. ground arith)
load_headers-ends out fuel rd c ph eph phs (suc n) (suc k) s a b l =
    let next : (ph + phs) % 2 ^ 32 ≡ ph + phs = omega arith in
    let rest : (t : Vm) → load_headers out fuel rd c (ph + phs) eph phs t k ≢ spent =
      λ t. load_headers-ends out fuel rd c (ph + phs) eph phs n k t (omega arith) b (omega arith) in
    elim (Bool-cases (ltb ph eph)) [
      | inr done ↦ rw (done, load_headers) (λ e. ground arith)
      | inl more ↦ elim (Header-cases (read_header rd ph)) [
        | inl (g, h) ↦ elim (Bool-cases (bad_segment g)) [
          | inl bad ↦ rw (more, load_headers) (rw h (rw bad (λ e. ground arith)))
          | inr good ↦ elim (Option-cases (map_segment out fuel c g s)) [
            | inl halt ↦ rw (more, load_headers) (rw h (rw good (rw halt (λ e. ground arith))))
            | inr (t, m) ↦ rw (more, load_headers) (rw h (rw good (rw m (rw next (rest t)))))
          ]
        ]
        | inr (inl h) ↦ rw (more, load_headers) (rw h (rw next (rest s)))
        | inr (inr (inl h)) ↦ rw (more, load_headers) (rw h (λ e. ground arith))
        | inr (inr (inr (e, h))) ↦ rw (more, load_headers) (rw h (λ x. ground arith))
      ]
    ]
