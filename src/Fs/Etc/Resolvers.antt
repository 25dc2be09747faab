-- ===== src/Fs/Etc/Resolvers.antt =====
-- The text of resolv.conf, and what a symbolic link in its place gets.
use text.Mathlib.TextLemmas.{cons-append, nil-append, append_assoc, append-nil}
use microbox.Base.{String, ◌<>◌, Char, false, List, [], ◌∷◌, ◌++◌, map, ◌≡◌, refl, ◌∙◌}
use microbox.Base.Lists.{All}
use microbox.Base.Text.{split, contains_char, split-append, split_whole, contains_char-append}
use microbox.Filepath.{join}
use microbox.Os.{
  Log, Call, write_file, remove, symbolic_link, Kernel, ok, os_write_file, syscall_mode,
}
use microbox.Os.Success.{done, perform-eq-ok, wrapping-eq-ok}
use microbox.Os.Success.Returns.{Returns, returns_rules, Returns-perform}
use microbox.Fs.Etc.{resolv_content, or_default, set_resolvers, remove_if_symlink}

abbrev pub newline : Char
newline = "\n"

abbrev pub line : String → String
line ns = "nameserver " <> ns

resolv_content-append :
    (content : String) (ns : List String)
    → resolv_content content ns ≡ content <> resolv_content "" ns
unfolding resolv_content
resolv_content-append content [] = rw append-nil
resolv_content-append content (n ∷ ns) =
    rw
      (
        resolv_content-append (content <> "nameserver " <> n <> "\n") ns,
        resolv_content-append ("" <> "nameserver " <> n <> "\n") ns,
      )
      (simp (append_assoc, nil-append))

newline-append : (r : String) → "\n" <> r ≡ String.◌∷◌ newline r
newline-append r = rw (cons-append, nil-append)

resolv_content_step :
    (n : String) (ns : List String)
    → resolv_content "" (n ∷ ns) ≡ resolv_content ("" <> "nameserver " <> n <> "\n") ns
unfolding resolv_content
resolv_content_step n ns = refl

resolv_content-cons :
    (n : String) (ns : List String)
    → resolv_content "" (n ∷ ns) ≡ line n <> String.◌∷◌ newline (resolv_content "" ns)
resolv_content-cons n ns =
    resolv_content_step n ns
    ∙ resolv_content-append ("" <> "nameserver " <> n <> "\n") ns
    ∙ simp (append_assoc, nil-append, newline-append)

-- Where no nameserver has a newline in it, the lines of resolv.conf are one for each nameserver, in
-- order, and nothing else.
pub split-resolv_content :
    (ns : List String)
    → All (λ n. contains_char newline n ≡ false) ns
    → split newline (resolv_content "" ns) ≡ map line ns ++ "" ∷ []
split-resolv_content [] h = unfold resolv_content split in refl
split-resolv_content (n ∷ ns) h =
    let plain : contains_char newline (line n) ≡ false =
      contains_char-append newline "nameserver " n ∙ h.0 in
    rw (
      resolv_content-cons,
      split-append,
      split-resolv_content ns h.1,
      split_whole newline (line n) plain,
    )

-- The file that `SetResolvers` writes last.
abbrev pub resolv_call : String → List String → Call
resolv_call base nameservers =
    write_file (join base "/etc/resolv.conf") (resolv_content "" (or_default nameservers)) 0o644

-- When `SetResolvers` returns, the last call has written resolv.conf with the given nameservers, or
-- with the two default ones if none was given.
set_resolvers-eq-ok :
    (K : Kernel) (base : String) (nameservers : List String) (l : Log) {l' : Log}
    → set_resolvers K base nameservers l ≡ (ok tt, l')
    → (k : Log) × (l' ≡ done (resolv_call base nameservers) ∷ k)
unfolding set_resolvers os_write_file syscall_mode
set_resolvers-eq-ok K base nameservers l {l'} h =
    let R : Returns (λ _ l. (k : Log) × (l ≡ done (resolv_call base nameservers) ∷ k))
        (set_resolvers K base nameservers) =
      search (returns_rules, Returns-perform) depth 8 in
    R.at l tt l' h

-- Where the look at resolv.conf has found a symbolic link, and its removal returned, the link was
-- removed, and nothing else was done.
remove_if_symlink-eq-ok :
    (K : Kernel) (path : String) (l : Log) {l' : Log}
    → remove_if_symlink K path symbolic_link l ≡ (ok tt, l')
    → l' ≡ done (remove path) ∷ l
unfolding remove_if_symlink
remove_if_symlink-eq-ok K path l h = perform-eq-ok K _ l (wrapping-eq-ok _ _ _ l h)
