-- ===== src/Fs/Setup/Pivoted.antt =====
-- What holds when setting up the root has returned.
use microbox.Base.{String, Bool, true, false, [], ◌∷◌, ◌≡◌, ◌∙◌, ap, arith}
use microbox.Os.{Log, remount, rdonly, mount, ok, Kernel, pure, raise, ◌>>◌}
use microbox.Os.Success.{done, >>=-eq-ok, perform-eq-ok}
use microbox.Os.Success.Returns.{Returns, returns_rules, Returns-bind, Returns-bind-Returns}
use microbox.Fs.Mount.{
  FsType, fs_host, fs_tmpfs, fs_rootfs, other_type, MountSpec, bind_mount, pivot_to,
}
use microbox.Filepath.{join}
use microbox.Fs.Mount.Success.{bind_calls, bind_mount-eq-ok, pivot_calls, pivot_to-eq-ok}
use microbox.Fs.Setup.Root.{merged, create_overlay_wrapped-merge}
use microbox.Fs.Setup.{
  FsOpts, switch_root, setup_merged, setup_base, setup_layers, setup_rootfs, setup_tmpfs_root,
  setup_hostfs_root, setup_in, setup_fs,
}

-- The calls that switch to `base`, and remount it read-only if asked, the latest first.
abbrev pub switch_calls : String → Bool → Log → Log
switch_calls base true l = done (mount "" "/" "" (remount ∷ rdonly ∷ []) "") ∷ pivot_calls base l
switch_calls base false l = pivot_calls base l

-- The directory that becomes the root, and where it is made read-only: a tmpfs and an overlay are
-- remounted after the switch to them, and the host's file system where it is bound onto the
-- directory, before the switch.
abbrev pub EndsIn : FsOpts → FsType → Log → Type 0
EndsIn opts fs_host l =
    (k : Log) × (l ≡ pivot_calls "/box" (bind_calls opts.read_only "/" (join "/box" "/") k))
EndsIn opts fs_tmpfs l = (k : Log) × (l ≡ switch_calls "/box" opts.read_only k)
EndsIn opts fs_rootfs l = (k : Log) × (l ≡ switch_calls merged opts.read_only k)
EndsIn opts (other_type n) l = ⊥

module _ (K : Kernel) where
  switch_root-eq-ok :
      (base : String) (ro : Bool) (l : Log) {l' : Log}
      → switch_root K base ro l ≡ (ok tt, l')
      → l' ≡ switch_calls base ro l
  unfolding switch_root
  switch_root-eq-ok base true l h =
      let (_, l1, p, h1) = >>=-eq-ok _ _ l h in
      cc (pivot_to-eq-ok K base l p, perform-eq-ok K _ l1 h1)
  switch_root-eq-ok base false l {l'} h =
      let (_, l1, p, h1) = >>=-eq-ok _ _ l h in
      let same : l' ≡ l1 = unfold pure in (ground arith) in same ∙ pivot_to-eq-ok K base l p

  switch_root-Returns :
      (base : String) (ro : Bool)
      → Returns (λ _ l. (k : Log) × (l ≡ switch_calls base ro k)) (switch_root K base ro)
  switch_root-Returns base ro = record { at = λ l _ l' p. (l, switch_root-eq-ok base ro l p) }

  pivot_to-Returns :
      (base : String) → Returns (λ _ l. (k : Log) × (l ≡ pivot_calls base k)) (pivot_to K base)
  pivot_to-Returns base = record { at = λ l _ l' p. (l, pivot_to-eq-ok K base l p) }

  abbrev host_mount : FsOpts → MountSpec
  host_mount opts = record { host = "/"; dest = "/"; ro = opts.read_only }

  -- The last two steps of the set-up from the host's file system.
  bind_host-Returns :
      (opts : FsOpts)
      → Returns
          (λ _ l. EndsIn opts fs_host l)
          (bind_mount K "/box" (host_mount opts) >> pivot_to K "/box")
  bind_host-Returns opts = record {
    at = λ l _ l' p.
        let (_, k, bound, pivoted) = >>=-eq-ok _ _ l p in
        let (k0, q) = bind_mount-eq-ok K "/box" (host_mount opts) l bound in
        (k0, pivot_to-eq-ok K "/box" k pivoted ∙ ap (pivot_calls "/box") q);
  }

  setup_layers-Returns :
      (opts : FsOpts) → Returns (λ _ l. EndsIn opts fs_rootfs l) (setup_layers K opts)
  unfolding setup_layers setup_merged
  setup_layers-Returns opts = Returns-bind _ _ _ λ _. Returns-bind _ _ _ λ _.
      Returns-bind-Returns _ (λ ov. ov.merge ≡ merged) _ _
        (create_overlay_wrapped-merge K opts.fs.path)
        λ ov e. rw e (search (returns_rules, switch_root-Returns) depth 10)

  setup_in-Returns :
      (opts : FsOpts) (mode : FsType) → Returns (λ _ l. EndsIn opts mode l) (setup_in K opts mode)
  unfolding setup_in setup_rootfs setup_tmpfs_root setup_base setup_hostfs_root raise
  setup_in-Returns opts fs_host = search (returns_rules, bind_host-Returns) depth 10
  setup_in-Returns opts fs_tmpfs = search (returns_rules, switch_root-Returns) depth 12
  setup_in-Returns opts fs_rootfs = search (returns_rules, setup_layers-Returns) depth 10
  setup_in-Returns opts (other_type n) = record { at = λ l _ l' p. cc }

  -- When `SetupFS` returns, its mode is one of the three, and its last calls are, each with success:
  -- for a tmpfs or an overlay, the pivot to that mode's directory with the old root detached and
  -- removed, and then the remount of the new root as read-only if it is to be so; for the host's
  -- file system, its bind onto /box, the remount of that as read-only if it is to be so, and then the
  -- pivot.
  pub setup_fs-eq-ok :
      (opts : FsOpts) (l : Log) {l' : Log}
      → setup_fs K opts l ≡ (ok tt, l')
      → EndsIn opts opts.fs.mode l'
  unfolding setup_fs
  setup_fs-eq-ok opts l {l'} h = (setup_in-Returns opts opts.fs.mode).at l tt l' h
