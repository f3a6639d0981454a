-- ===== src/Errno.antt =====
-- The error codes of os161/kern/include/kern/errno.h, which every fallible kernel function returns.
-- A C result of 0 is `none`, a result of E is `some E`.
use azurespider.Prelude.{Option, none, some, Bool, true, false}

pub data Errno : Type 0 where
  einval efault enametoolong enomem eio enoent enotdir eisdir eexist exdev eagain espipe eunimp
        enxio enodev ebusy eioctl enotempty erange enospc emfile enfile enosys enoexec e2big ebadf :
      Errno

-- The int that a kernel function returns.
abbrev pub Code : Type 0
Code = Option Errno

abbrev pub is_ok : Code → Bool
is_ok none = true
is_ok (some e) = false

-- What a function leaves that returns an error code or, through a pointer, a value.
pub data Answer {ℓ} (A : Type ℓ) : Type ℓ where
  err : Errno → Answer A
  got : A → Answer A
