-- ===== src/Os/Actions.antt =====
-- Actions: functions from the log to a result and the longer log. The kernel answers a call from
-- all that was called before, so that every behaviour of a real one is some kernel's.
use mathlib.Core.Bool.{Bool, true, false}
use mathlib.Core.Option.{Option, none, some}
use mathlib.Core.List.{List, [], ◌∷◌}
use Prim.Native.Nat.{ℕ, ◌+◌, ◌*◌, ◌/◌, ◌%◌, ◌^◌}
use Prim.Native.String.{String}
use microbox.Os.Errors.{Errno, Error, errno, wrapf}
use microbox.Os.Calls.{
  Link, Route, WaitStatus, FileKind, Call, Log, stat, lstat, mkdir, mkdir_all, chmod, write_file,
  create_file, warn, log_failure,
}

pub data Result {ℓ} (A : Type ℓ) : Type ℓ where
  ok : A → Result A
  err : Error → Result A

pub data Reply {ℓ} (A : Type ℓ) : Type ℓ where
  got : A → Reply A
  failed : Errno → Reply A

pub record Kernel : Type 0 where
  -- `none` is success.
  pub act : Log → Call → Option Errno
  pub stat : Log → String → Reply FileKind
  pub lstat : Log → String → Reply FileKind
  pub geteuid : Log → ℕ
  pub getegid : Log → ℕ
  -- Nanoseconds.
  pub now : Log → ℕ
  -- The text of a file, with the error that ended the reading, if one did.
  pub read_file : Log → String → Reply (String × Option Errno)
  pub read_fd : Log → ℕ → Reply String
  pub look_path : Log → String → Reply String
  pub current_user : Log → Reply String
  pub pipe2 : Log → Reply (ℕ × ℕ)
  -- A unique identifier, as text.
  pub new_uuid : Log → String
  -- The child, and the file descriptor that stands for it.
  pub clone3 : Log → Reply (ℕ × ℕ)
  pub wait4 : Log → ℕ → Reply (ℕ × WaitStatus)
  -- Whether a bucket is there, and whether a key is in it, by the path of the database.
  pub db_has_bucket : Log → String → String → Bool
  pub db_has : Log → String → String → String → Bool
  pub link_by_name : Log → String → Reply Link
  pub link_by_index : Log → ℕ → Reply Link
  -- The attributes that the library has filled in for an interface that was added.
  pub link_attrs : Log → String → Link
  pub addr_list : Log → Link → Reply (List (ℕ × ℕ))
  pub route_get : Log → Reply (List Route)
  pub route_list : Log → Reply (List Route)
  pub ipt_exists : Log → String → String → List String → Reply Bool
  pub ns_get : Log → Reply ℕ
  pub ns_get_pid : Log → ℕ → Reply ℕ

abbrev pub Io {ℓ} : Type ℓ → Type ℓ
Io A = Log → Result A × Log

module _ {ℓ} {A : Type ℓ} where
  unfoldable pub pure : A → Io A
  pure a l = (ok a, l)

  unfoldable pub raise : Error → Io A
  raise e l = (err e, l)

  unfoldable pub lift : Result A → Io A
  lift r l = (r, l)

module _ {ℓ κ} {A : Type ℓ} {B : Type κ} where
  abbrev pub continue : Result A → (A → Io B) → Io B
  continue (ok a) f l = f a l
  continue (err e) f l = (err e, l)

  infixl 10 ◌>>=◌ ◌>>◌
  -- Opening this opens `pure`, `raise` and `lift` too.
  unfoldable pub ◌>>=◌ : Io A → (A → Io B) → Io B
  unfolding pure raise lift
  ◌>>=◌ m f l = let (r, l') = m l in continue r f l'

  abbrev pub ◌>>◌ : Io A → Io B → Io B
  m >> n = m >>= λ _. n

  abbrev pub choose : Result A → (A → Io B) → (Error → Io B) → Io B
  choose (ok a) f g l = f a l
  choose (err e) f g l = g e l

  -- `if err := m; err == nil { f } else { g }`
  unfoldable pub branching : Io A → (A → Io B) → (Error → Io B) → Io B
  branching m f g l = let (r, l') = m l in choose r f g l'

module _ {ℓ} {A : Type ℓ} where
  abbrev pub wrap_result : String → List String → Result A → Result A
  wrap_result format args (ok a) = ok a
  wrap_result format args (err e) = err (wrapf format args e)

  -- `if err != nil { return fmt.Errorf(format, args..., err) }`
  unfoldable pub wrapping : String → List String → Io A → Io A
  wrapping format args m l = let (r, l') = m l in (wrap_result format args r, l')

-- The result of an action as a value, whatever it is.
unfoldable pub attempt {ℓ} : {A : Type ℓ} → Io A → Io (Result A)
attempt m l = let (r, l') = m l in (ok r, l')

-- `defer n`, at the start of `m`: `n` runs when `m` has ended, and its error is dropped.
unfoldable pub finally {ℓ κ} : {A : Type ℓ} {B : Type κ} → Io A → Io B → Io A
finally m n l = let (r, l') = m l in let (_, l'') = n l' in (r, l'')

abbrev pub forgive : (Error → Bool) → Result (Unit {0}) → Result (Unit {0})
forgive p (ok a) = ok a
forgive p (err e) = elim (p e) [ true ↦ ok tt | false ↦ err e ]

-- `if err != nil && !p(err) { return err }`
unfoldable pub tolerating : (Error → Bool) → Io (Unit {0}) → Io (Unit {0})
tolerating p m l = let (r, l') = m l in (forgive p r, l')

-- `_ = m`
unfoldable pub ignoring {ℓ} : {A : Type ℓ} → Io A → Io (Unit {0})
ignoring m l = let (r, l') = m l in (ok tt, l')

abbrev pub outcome : Option Errno → Result (Unit {0})
outcome none = ok tt
outcome (some e) = err (errno e)

module _ (K : Kernel) where
  unfoldable pub perform : Call → Io (Unit {0})
  perform c l = let r = K.act l c in (outcome r, record { call = c; failure = r } ∷ l)

abbrev pub answer {ℓ} : {A : Type ℓ} → Call → Reply A → Io A
answer c (got a) l = (ok a, record { call = c; failure = none } ∷ l)
answer c (failed e) l = (err (errno e), record { call = c; failure = some e } ∷ l)

module _ (K : Kernel) where
  unfoldable pub do_stat : String → Io FileKind
  do_stat p l = answer (stat p) (K.stat l p) l

  unfoldable pub do_lstat : String → Io FileKind
  do_lstat p l = answer (lstat p) (K.lstat l p) l

-- A question that cannot fail.
unfoldable pub query {ℓ} : {A : Type ℓ} → Call → (Log → A) → Io A
query c f l = (ok (f l), record { call = c; failure = none } ∷ l)

-- A call that returns nothing, not even an error.
unfoldable pub tell : Call → Io (Unit {0})
unfolding query
tell c = query c (λ _. tt)

-- A call that returns a value.
unfoldable pub ask {ℓ} : {A : Type ℓ} → Call → (Log → Reply A) → Io A
ask c f l = answer c (f l) l

-- `for _, x := range xs { body }`, where an error of the body returns.
unfoldable pub for_each {ℓ} : {A : Type ℓ} → List A → (A → Io (Unit {0})) → Io (Unit {0})
for_each [] body = pure tt
for_each (x ∷ xs) body = body x >> for_each xs body

-- The mode that Go's `os` package passes to the kernel for an `os.FileMode`: the nine permission
-- bits, and setuid, setgid and sticky from their own bits 23, 22 and 20.
unfoldable pub syscall_mode : ℕ → ℕ
syscall_mode m =
    m % 512 + 512 * (m / 2 ^ 20 % 2) + 1024 * (m / 2 ^ 22 % 2) + 2048 * (m / 2 ^ 23 % 2)

-- `os.MkdirAll`, `os.Mkdir`, `os.Chmod`, `os.WriteFile`, and `os.OpenFile` with `O_CREATE`.
module _ (K : Kernel) where
  unfoldable pub os_mkdir_all : String → ℕ → Io (Unit {0})
  os_mkdir_all p m = perform K (mkdir_all p (syscall_mode m))

  unfoldable pub os_mkdir : String → ℕ → Io (Unit {0})
  os_mkdir p m = perform K (mkdir p (syscall_mode m))

  unfoldable pub os_chmod : String → ℕ → Io (Unit {0})
  os_chmod p m = perform K (chmod p (syscall_mode m))

  unfoldable pub os_write_file : String → String → ℕ → Io (Unit {0})
  os_write_file p content m = perform K (write_file p content (syscall_mode m))

  unfoldable pub os_create_file : String → ℕ → Io (Unit {0})
  os_create_file p m = perform K (create_file p (syscall_mode m))

  -- `logger.Log.Error` and `logger.Log.Warn`: what the logger's handler does with the message changes
  -- nothing else.
  unfoldable pub log_error : String → Io (Unit {0})
  log_error message = ignoring (perform K (log_failure message))

  unfoldable pub log_warn : String → Io (Unit {0})
  log_warn message = ignoring (perform K (warn message))
