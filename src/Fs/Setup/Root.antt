-- ===== src/Fs/Setup/Root.antt =====
-- What setting up the root does to the host's side: before and after the pivot, and in all.
use microbox.Base.{String, List, [], ◌≡◌, ◌⊎◌}
use microbox.Base.Lists.{All}
use microbox.Base.Text.{split, join_with}
use microbox.Filepath.{join, render, clean, clean_parts}
use microbox.Filepath.Laws.{NoDotdot}
use microbox.Os.{remove, chdir, mount, detach, pivot_root, Call, Kernel, wrapping}
use microbox.Os.Success.Returns.{Returns, returns_rules}
use microbox.Fs.Mount.{MountSpec, create_overlay}
use microbox.Fs.Setup.Contained.{Contained}

-- The calls that switch the root, and those that remount it as it is.
abbrev pub RootCall : Call → Type 0
RootCall (mount source target fstype flags options) = (source ≡ "") × (target ≡ "/")
RootCall (remove p) = p ≡ "/.old_root"
RootCall (detach p) = p ≡ "/.old_root"
RootCall (chdir p) = Unit
RootCall (pivot_root new old) = Unit
RootCall _ = ⊥

-- What setting up the root may do: change what lies below /box, and switch the root.
abbrev pub SetupCall : Call → Type 0
SetupCall c = Contained "/box" c ⊎ RootCall c

-- The destinations that the user gave have no `..`.
abbrev pub PlainDests : List MountSpec → Type 0
PlainDests = All (λ m. NoDotdot m.dest)

-- The merged directory of the overlay lies below /box.
abbrev pub merged : String
merged = "/box/overlay/merged"

module _ (K : Kernel) where
  create_overlay-merge :
      (src : String) → Returns (λ ov _. ov.merge ≡ merged) (create_overlay K src "/box/overlay")
  unfolding create_overlay join clean render split clean_parts join_with
  create_overlay-merge src = search returns_rules depth 12

  pub create_overlay_wrapped-merge :
      (src : String)
      → Returns
          (λ ov _. ov.merge ≡ merged)
          (wrapping "error creating overlayfs" [] (create_overlay K src "/box/overlay"))
  create_overlay_wrapped-merge src = search (returns_rules, create_overlay-merge)
