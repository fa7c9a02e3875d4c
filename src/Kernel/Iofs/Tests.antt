-- ===== src/Kernel/Iofs/Tests.antt =====
-- The directory at concrete messages.
use yax.Base.{false}
use yax.Kernel.Iofs.{IoConn}

abbrev root : IoConn
root = record { n = 0; on_line = false }
