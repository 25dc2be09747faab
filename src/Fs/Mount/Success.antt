-- ===== src/Fs/Mount/Success.antt =====
-- What a successful mount has done.
use microbox.Base.{
  ℕ, ◌+◌, ◌*◌, ◌/◌, ◌≤◌, ◌<◌, ◌^◌, String, ◌<>◌, Bool, true, false, [], ◌∷◌, ◌≡◌, arith, inl, inr,
  ◌⊎◌, Bool-cases, ltb,
}
use microbox.Base.Text.{is_empty}
use microbox.Base.Decimal.{decimal}
use microbox.Filepath.{join}
use microbox.Os.{
  bind, recursive, nosuid, nodev, remount, rdonly, errno, einval, Log, mkdir_all, mount, remove,
  detach, chdir, pivot_root, ◌>>◌, ok, Kernel, pure, perform, syscall_mode, os_mkdir_all,
}
use microbox.Os.Success.{done, >>=-eq-ok, guard-eq-ok, perform-eq-ok}
use microbox.Fs.Mount.{
  MountSpec, bind_mount, bind_onto, remount_read_only, tmpfs_options, create_tmpfs, pivot_to,
}

-- The last calls of a bind mount, the latest first.
abbrev pub bind_call : String → String → Log → Log
bind_call host target l =
    done (mount host target "" (bind ∷ recursive ∷ nosuid ∷ nodev ∷ []) "") ∷ l

abbrev pub bind_calls : Bool → String → String → Log → Log
bind_calls true host target l =
    done (mount "" target "" (bind ∷ remount ∷ rdonly ∷ nosuid ∷ nodev ∷ []) "")
    ∷ bind_call host target l
bind_calls false host target l = bind_call host target l

remount-eq-ok :
    (K : Kernel) (ro : Bool) (host target : String) (l : Log) {l' : Log}
    → remount_read_only K ro target (bind_call host target l) ≡ (ok tt, l')
    → l' ≡ bind_calls ro host target l
unfolding remount_read_only pure
remount-eq-ok K true host target l h = perform-eq-ok K _ _ h
remount-eq-ok K false host target l h = ground arith

-- A `BindMount` that returns no error ends with the bind of the source onto its target, and, if the
-- mount is to be read-only, with the remount that makes it so: both succeeded.
pub bind_mount-eq-ok :
    (K : Kernel) (base : String) (spec : MountSpec) (l : Log) {l' : Log}
    → bind_mount K base spec l ≡ (ok tt, l')
    → (k : Log) × (l' ≡ bind_calls spec.ro spec.host (join base spec.dest) k)
unfolding bind_mount bind_onto
bind_mount-eq-ok K base spec l h =
    let target = join base spec.dest in
    let h1 = (guard-eq-ok _ (errno einval) (bind_onto K spec target) l h).1 in
    let (kind, l1, _, h2) = >>=-eq-ok _ _ l h1 in
    let (_, l2, _, h3) = >>=-eq-ok _ _ l1 h2 in
    let (_, l3, p, h4) = >>=-eq-ok _ _ l2 h3 in
    (l2, remount-eq-ok K spec.ro spec.host target l2 (rw (perform-eq-ok K _ l2 p) at h4))

mebibytes-positive :
    (storage : ℕ) → (0 < storage / 1024 / 1024) ⊎ ((storage / 1024 / 1024 ≡ 0) × (storage < 2 ^ 20))
mebibytes-positive storage = elim (Bool-cases (ltb storage (2 ^ 20))) [
  | inl h ↦ inr (ground arith, ground arith)
  | inr h ↦ inl (ground arith)
]

-- A tmpfs that was created was mounted last, without set-user-id and device files. Its size is written
-- in whole mebibytes, where the storage is a number of bytes: as the largest number that is not more
-- than the storage. That number is 0 where the storage is less than one mebibyte (and a size of 0m
-- is no limit to a tmpfs).
pub create_tmpfs-eq-ok :
    (K : Kernel) (path : String) (storage : ℕ) (l : Log) {l' : Log}
    → create_tmpfs K path storage l ≡ (ok tt, l')
    → (n : ℕ) × (k : Log) × (l'
        ≡ done (
            mount "tmpfs" path "tmpfs" (nosuid ∷ nodev ∷ []) ("mode=755,size=" <> decimal n <> "m"))
          ∷ k)
      × (n * 2 ^ 20 ≤ storage)
      × (storage < (n + 1) * 2 ^ 20)
      × ((0 < n) ⊎ ((n ≡ 0) × (storage < 2 ^ 20)))
unfolding create_tmpfs tmpfs_options
create_tmpfs-eq-ok K path storage l h =
    let (_, h1) =
      guard-eq-ok (is_empty path) (errno einval)
        (os_mkdir_all K path 0o755
          >> perform K (mount "tmpfs" path "tmpfs" (nosuid ∷ nodev ∷ []) (tmpfs_options storage)))
        l h in
    let (_, k, _, h2) = >>=-eq-ok _ _ l h1 in
    (
      storage / 1024 / 1024,
      k,
      perform-eq-ok K _ k h2,
      omega arith,
      omega arith,
      mebibytes-positive storage,
    )

-- The calls of a pivot to `base`, the latest first.
abbrev pub pivot_calls : String → Log → Log
pivot_calls base l =
    done (remove "/.old_root")
    ∷ done (detach "/.old_root")
    ∷ done (chdir "/")
    ∷ done (pivot_root "." "./.old_root")
    ∷ done (mkdir_all ".old_root" 0o700)
    ∷ done (chdir base)
    ∷ l

-- A pivot that returns has made each of its calls, in order, and each has succeeded: the old root is
-- detached and its directory removed.
pub pivot_to-eq-ok :
    (K : Kernel) (base : String) (l : Log) {l' : Log}
    → pivot_to K base l ≡ (ok tt, l')
    → l' ≡ pivot_calls base l
unfolding pivot_to os_mkdir_all syscall_mode
pivot_to-eq-ok K base l h =
    let (_, l1, p1, h1) = >>=-eq-ok _ _ l h in
    let (_, l2, p2, h2) = >>=-eq-ok _ _ l1 h1 in
    let (_, l3, p3, h3) = >>=-eq-ok _ _ l2 h2 in
    let (_, l4, p4, h4) = >>=-eq-ok _ _ l3 h3 in
    let (_, l5, p5, h5) = >>=-eq-ok _ _ l4 h4 in
    cc (
      perform-eq-ok K _ l p1,
      perform-eq-ok K _ l1 p2,
      perform-eq-ok K _ l2 p3,
      perform-eq-ok K _ l3 p4,
      perform-eq-ok K _ l4 p5,
      perform-eq-ok K _ l5 h5,
    )
