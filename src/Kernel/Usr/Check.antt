-- ===== src/Kernel/Usr/Check.antt =====
-- What the checks of a process's pointers let through.
use yax.Base.{has_bit, ℕ, ◌<◌, ◌≤◌, ◌≡◌, true}
use yax.Kernel.Paging.{Paging, pg_present, pg_user, pg_writeable, prot_write}
use yax.Kernel.Paging.Lookup.{entry}

-- A process may use the page of an address: it is present, belongs to processes, and is writeable if it
-- is to be written.
pub record IsAllowed (s : Paging) (prot a : ℕ) : Type 0 where
  pub there : has_bit (entry s a) pg_present ≡ true
  pub user : has_bit (entry s a) pg_user ≡ true
  pub writeable : has_bit prot prot_write ≡ true → has_bit (entry s a) pg_writeable ≡ true

-- The pages of the addresses from `i` to `j` may be used.
abbrev pub Usable : Paging → ℕ → ℕ → ℕ → Type 0
Usable s prot i j = (a : ℕ) → i ≤ a → a < j → IsAllowed s prot a
