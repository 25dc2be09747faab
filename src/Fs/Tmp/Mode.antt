-- ===== src/Fs/Tmp/Mode.antt =====
-- The mode that /tmp gets.
use microbox.Base.{String, true, false, ◌∷◌, ◌≡◌, ◌⊎◌, inl, inr, sym, Bool-cases}
use microbox.Base.Text.{is_empty}
use microbox.Filepath.{join}
use microbox.Os.{Log, chmod, mkdir_all, Kernel, ok, os_mkdir_all, os_chmod, syscall_mode}
use microbox.Os.Success.{done, pure-eq-ok, perform-eq-ok, >>=-eq-ok}
use microbox.Fs.Tmp.{mount_tmp}

-- When `MountTmp` returns, then for an empty base it has done nothing; for any other it has made /tmp
-- below the base and then changed its mode, but the mode that the kernel was given is 0777, without
-- the sticky bit: Go takes that bit from `os.ModeSticky`, and drops it from 01777.
pub mount_tmp-eq-ok :
    (K : Kernel) (base : String) (l : Log) {l' : Log}
    → mount_tmp K base l ≡ (ok tt, l')
    → ((is_empty base ≡ true) × (l' ≡ l))
      ⊎ ((is_empty base ≡ false)
          × (l'
              ≡ done (chmod (join base "/tmp") 0o777)
                ∷ done (mkdir_all (join base "/tmp") 0o777)
                ∷ l))
unfolding mount_tmp os_mkdir_all os_chmod syscall_mode
mount_tmp-eq-ok K base l {l'} h = elim (Bool-cases (is_empty base)) [
  | inl e ↦ inl (e, sym (pure-eq-ok tt l (rw e at h)).1)
  | inr e ↦
      let (_, k, p, q) = >>=-eq-ok _ _ l (rw e at h) in
      inr (e, cc (perform-eq-ok K _ l p, perform-eq-ok K _ k q))
]
