-- ===== src/Js/Calls.antt =====
-- lib/util.js and lib/wasi.js: what the result of a call of src/glue.c becomes in JavaScript.
pub mod Translated
use Prim.Native.String.{String}
use node_ext2fs.Base.{
  ℕ, ℤ, pos, neg_part, is_neg, Option, none, some, List, [], ◌∷◌, ◌==◌, if◌then◌else◌,
}

-- `CODE_TO_ERRNO` of lib/wasi.js.
abbrev pub code_to_errno : List (String × ℕ)
code_to_errno =
    ("E2BIG", 1)
    ∷ ("EACCES", 2)
    ∷ ("EADDRINUSE", 3)
    ∷ ("EADDRNOTAVAIL", 4)
    ∷ ("EAFNOSUPPORT", 5)
    ∷ ("EAGAIN", 6)
    ∷ ("EALREADY", 7)
    ∷ ("EBADF", 8)
    ∷ ("EBADMSG", 9)
    ∷ ("EBUSY", 10)
    ∷ ("ECANCELED", 11)
    ∷ ("ECHILD", 12)
    ∷ ("ECONNABORTED", 13)
    ∷ ("ECONNREFUSED", 14)
    ∷ ("ECONNRESET", 15)
    ∷ ("EDEADLOCK", 16)
    ∷ ("EDESTADDRREQ", 17)
    ∷ ("EDOM", 18)
    ∷ ("EDQUOT", 19)
    ∷ ("EEXIST", 20)
    ∷ ("EFAULT", 21)
    ∷ ("EFBIG", 22)
    ∷ ("EHOSTUNREACH", 23)
    ∷ ("EIDRM", 24)
    ∷ ("EILSEQ", 25)
    ∷ ("EINPROGRESS", 26)
    ∷ ("EINTR", 27)
    ∷ ("EINVAL", 28)
    ∷ ("EIO", 29)
    ∷ ("EISCONN", 30)
    ∷ ("EISDIR", 31)
    ∷ ("ELOOP", 32)
    ∷ ("EMFILE", 33)
    ∷ ("EMLINK", 34)
    ∷ ("EMSGSIZE", 35)
    ∷ ("EMULTIHOP", 36)
    ∷ ("ENAMETOOLONG", 37)
    ∷ ("ENETDOWN", 38)
    ∷ ("ENETRESET", 39)
    ∷ ("ENETUNREACH", 40)
    ∷ ("ENFILE", 41)
    ∷ ("ENOBUFS", 42)
    ∷ ("ENODEV", 43)
    ∷ ("ENOENT", 44)
    ∷ ("ENOEXEC", 45)
    ∷ ("ENOLCK", 46)
    ∷ ("ENOLINK", 47)
    ∷ ("ENOMEM", 48)
    ∷ ("ENOMSG", 49)
    ∷ ("ENOPROTOOPT", 50)
    ∷ ("ENOSPC", 51)
    ∷ ("ENOSYS", 52)
    ∷ ("ENOTCONN", 53)
    ∷ ("ENOTDIR", 54)
    ∷ ("ENOTEMPTY", 55)
    ∷ ("ENOTRECOVERABLE", 56)
    ∷ ("ENOTSOCK", 57)
    ∷ ("ENOTTY", 59)
    ∷ ("ENXIO", 60)
    ∷ ("EOVERFLOW", 61)
    ∷ ("EOWNERDEAD", 62)
    ∷ ("EPERM", 63)
    ∷ ("EPIPE", 64)
    ∷ ("EPROTO", 65)
    ∷ ("EPROTONOSUPPORT", 66)
    ∷ ("EPROTOTYPE", 67)
    ∷ ("ERANGE", 68)
    ∷ ("EROFS", 69)
    ∷ ("ESPIPE", 70)
    ∷ ("ESRCH", 71)
    ∷ ("ESTALE", 72)
    ∷ ("ETIMEDOUT", 73)
    ∷ ("ETXTBSY", 74)
    ∷ ("EXDEV", 75)
    ∷ []

-- `ERRNO_TO_CODE[errno]`: the loop goes through the table and sets an entry for each row, so that a
-- later row wins.
abbrev pub errno_to_code : List (String × ℕ) → ℕ → Option String
errno_to_code [] errno = none
errno_to_code ((code, value) ∷ rows) errno = elim (errno_to_code rows errno) [
  | some later ↦ some later
  | none ↦ if value == errno then some code else none
]

-- `ErrnoException`, without its message.
pub record ErrnoException : Type 0 where
  pub errno : ℕ
  pub code : String

-- `ERRNO_TO_CODE[errno] || 'UNKNOWN'`
abbrev pub with_code : ℕ → Option String → ErrnoException
with_code errno (some code) = record { errno = errno; code = code }
with_code errno none = record { errno = errno; code = "UNKNOWN" }

unfoldable pub errno_exception : ℕ → ErrnoException
errno_exception errno = with_code errno (errno_to_code code_to_errno errno)

pub data Result : Type 0 where
  returned : ℤ → Result
  threw : ErrnoException → Result

-- What `ccallThrow` and `ccallThrowAsync` do with the result of the C function.
unfoldable pub ccall_throw : ℤ → Result
unfolding errno_exception
ccall_throw result =
    if is_neg result then threw (errno_exception (neg_part result)) else returned result
