-- ===== src/Codes.antt =====
-- src/include/yax: the error codes (errorcodes.h), the message numbers (fn.h) and the flag bits
-- (openflags.h) that the components share.
use yax.Base.{ℕ, ◌+◌, ◌^◌}

abbrev pub enosys : ℕ
enosys = 1

abbrev pub eacces : ℕ
eacces = 2

abbrev pub ebadf : ℕ
ebadf = 4

abbrev pub efault : ℕ
efault = 6

abbrev pub einval : ℕ
einval = 7

abbrev pub eisdir : ℕ
eisdir = 8

abbrev pub enoent : ℕ
enoent = 11

abbrev pub enoexec : ℕ
enoexec = 12

abbrev pub enomem : ℕ
enomem = 13

abbrev pub enotdir : ℕ
enotdir = 14

abbrev pub enotsup : ℕ
enotsup = 15

abbrev pub erange : ℕ
erange = 20

abbrev pub eio : ℕ
eio = 22

-- The bits of a message number that say which arguments go with it.
abbrev pub wants_off : ℕ
wants_off = 16

abbrev pub wants_ptr : ℕ
wants_ptr = 17

abbrev pub wants_wr : ℕ
wants_wr = 18

abbrev pub wants_ptr2 : ℕ
wants_ptr2 = 19

abbrev pub wants_wr2 : ℕ
wants_wr2 = 20

abbrev pub m_auth : ℕ
m_auth = 2 ^ 17

abbrev pub m_open : ℕ
m_open = 1

abbrev pub m_sread : ℕ
m_sread = 2 + 2 ^ 17 + 2 ^ 18

abbrev pub m_swrite : ℕ
m_swrite = 3 + 2 ^ 17

abbrev pub m_seek : ℕ
m_seek = 4

abbrev pub m_pread : ℕ
m_pread = 5 + 2 ^ 17 + 2 ^ 18 + 2 ^ 16

abbrev pub m_pwrite : ℕ
m_pwrite = 6 + 2 ^ 17 + 2 ^ 16

abbrev pub m_stat : ℕ
m_stat = 7 + 2 ^ 17 + 2 ^ 18

abbrev pub m_wstat : ℕ
m_wstat = 8 + 2 ^ 17

abbrev pub m_walk : ℕ
m_walk = 29 + 2 ^ 17 + 2 ^ 19 + 2 ^ 20

abbrev pub m_dup : ℕ
m_dup = 30

abbrev pub m_del : ℕ
m_del = 31

-- The bits of O_RDONLY, O_WRONLY, O_TRUNC, O_CREAT, O_EXCL and O_PATH.
abbrev pub o_rdonly : ℕ
o_rdonly = 0

abbrev pub o_wronly : ℕ
o_wronly = 1

abbrev pub o_trunc : ℕ
o_trunc = 2

abbrev pub o_creat : ℕ
o_creat = 4

abbrev pub o_excl : ℕ
o_excl = 5

abbrev pub o_path : ℕ
o_path = 6
