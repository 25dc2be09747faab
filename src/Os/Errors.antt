-- ===== src/Os/Errors.antt =====
-- Go's `error` values: an errno of the kernel, or a message of `fmt.Errorf` with its arguments,
-- around another error where the format has `%w`.
use mathlib.Core.Bool.{Bool, true, false}
use mathlib.Core.List.{List}
use Prim.Native.Nat.{ℕ}
use Prim.Native.String.{String}

pub data Errno : Type 0 where
  enoent eexist enotempty enotdir einval ebusy eintr enosys eperm : Errno
  other : ℕ → Errno

pub data Error : Type 0 where
  errno : Errno → Error
  errorf : String → List String → Error
  wrapf : String → List String → Error → Error

-- `errors.Is(err, os.ErrExist)` and `errors.Is(err, os.ErrNotExist)`, as `syscall.Errno.Is` has them.
abbrev pub is_exist : Error → Bool
is_exist (errno eexist) = true
is_exist (errno enotempty) = true
is_exist (errno _) = false
is_exist (errorf _ _) = false
is_exist (wrapf _ _ e) = is_exist e

abbrev pub is_not_exist : Error → Bool
is_not_exist (errno enoent) = true
is_not_exist (errno _) = false
is_not_exist (errorf _ _) = false
is_not_exist (wrapf _ _ e) = is_not_exist e

-- `errors.Is(err, unix.EINVAL)` and the like.
abbrev pub is_einval : Error → Bool
is_einval (errno einval) = true
is_einval (errno _) = false
is_einval (errorf _ _) = false
is_einval (wrapf _ _ e) = is_einval e

abbrev pub is_enotdir : Error → Bool
is_enotdir (errno enotdir) = true
is_enotdir (errno _) = false
is_enotdir (errorf _ _) = false
is_enotdir (wrapf _ _ e) = is_enotdir e

abbrev pub is_ebusy : Error → Bool
is_ebusy (errno ebusy) = true
is_ebusy (errno _) = false
is_ebusy (errorf _ _) = false
is_ebusy (wrapf _ _ e) = is_ebusy e
