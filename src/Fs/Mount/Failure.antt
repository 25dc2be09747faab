-- ===== src/Fs/Mount/Failure.antt =====
-- What a failed bind mount leaves behind.
use microbox.Base.{String, true, [], ◌∷◌, ◌≡◌, ◌⊎◌, some}
use microbox.Os.{Errno, Call, bind, recursive, nosuid, nodev, remount, rdonly, mount, Log}
use microbox.Os.Keeps.{Grows}
use microbox.Fs.Mount.{MountSpec}
use microbox.Fs.Mount.Success.{bind_call}

-- Not a mount.
abbrev pub Unmounting : Call → Type 0
Unmounting (mount source target fstype flags options) = ⊥
Unmounting _ = Unit

-- The three ends of a bind mount that fails: no mount was called; the bind, the only mount, failed; or
-- the bind is there and the remount, which was to make it read-only, failed.
abbrev pub FailedBind : String → MountSpec → Log → Log → Type 0
FailedBind target spec l l' =
    Grows Unmounting l l'
    ⊎ ((k : Log) × (e : Errno) × Grows Unmounting l k
        × (l'
            ≡ record {
              call = mount spec.host target "" (bind ∷ recursive ∷ nosuid ∷ nodev ∷ []) "";
              failure = some e;
            }
              ∷ k))
    ⊎ ((k : Log) × (e : Errno) × (spec.ro ≡ true)
        × Grows Unmounting l k
        × (l'
            ≡ record {
              call = mount "" target "" (bind ∷ remount ∷ rdonly ∷ nosuid ∷ nodev ∷ []) "";
              failure = some e;
            }
              ∷ bind_call spec.host target k))
