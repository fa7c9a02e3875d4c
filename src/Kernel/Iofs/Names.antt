-- ===== src/Kernel/Iofs/Names.antt =====
-- The interrupt lines: their names and their counts.
use yax.Base.{ℕ, ◌+◌, ◌<◌, ◌≤◌, ◌≡◌, List, some, get_or, get_or-set, length, [], ◌∷◌, arith}
use yax.Base.Int.{pos}
use yax.Codes.{m_walk}
use yax.Codas.Bit.{pbit32, pbit64}
use yax.Kernel.Iofs.{IoConn, line_name, line_of, dwalk, dfn, iofsinterrupt, iread}

-- A walk to the name that a read of the directory gives line `i` goes to that line, and answers with
-- the inode number that the read gives it.
pub dfn-walk :
    (c : IoConn) (sub i len : ℕ)
    → i < 16
    → let a = dfn c m_walk sub (line_name i ∷ []) len 8 in
      (a.result ≡ pos 0) × (a.out2 ≡ pbit64 (1 + i)) × (a.conn.n ≡ i)
unfolding dfn dwalk line_of
dfn-walk c sub i len h = ground arith

-- After an interrupt of its line a reader of four bytes does not park, and takes the one interrupt that
-- came last from the line's count; the other lines keep theirs.
iofsinterrupt-iread :
    (c : IoConn) (irqsem : List ℕ) (len : ℕ)
    → 4 ≤ len
    → c.n < length irqsem
    → let after = iofsinterrupt c.n irqsem in
      (iread c len (get_or after c.n 0)
        ≡ some
            (record { result = pos 4; out = pbit32 1; out2 = []; conn = c }, get_or irqsem c.n 0))
      × ((i : ℕ) → ¬ (i ≡ c.n) → get_or after i 0 ≡ get_or irqsem i 0)
unfolding iofsinterrupt iread
iofsinterrupt-iread c irqsem len h k =
    let set_at = get_or-set irqsem c.n c.n (get_or irqsem c.n 0 + 1) 0 in
    let counted : get_or (iofsinterrupt c.n irqsem) c.n 0 ≡ get_or irqsem c.n 0 + 1 =
      ground (arith, set_at) in
    (
      rw counted (ground arith),
      λ i away. ground (arith, get_or-set irqsem c.n i (get_or irqsem c.n 0 + 1) 0),
    )
