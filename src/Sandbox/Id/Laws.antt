-- ===== src/Sandbox/Id/Laws.antt =====
-- The mappings, and the range that is found.
use microbox.Base.{
  ℕ, String, List, [], ◌∷◌, ◌++◌, ◌≡◌, refl, arith, ap, none, some, inl, inr, Option-cases,
}
use microbox.Base.Lists.{All}
use microbox.Base.Decimal.{decimal}
use microbox.Filepath.{dir}
use microbox.Os.{Log, write_file, stat, ok, Kernel, os_write_file, syscall_mode}
use microbox.Os.Success.{done, >>=-eq-ok, perform-eq-ok, wrapping-eq-ok, do_stat-eq-ok}
use microbox.Sandbox.Id.{line_range, first_range, map_line, write_map, map_root, proc_file}

write_map-eq-ok :
    (K : Kernel) (path : String) (inside outside length : ℕ) (l : Log) {l' : Log}
    → write_map K path inside outside length l ≡ (ok tt, l')
    → l'
      ≡ done (write_file path (map_line inside outside length) 0o644) ∷ done (stat (dir path)) ∷ l
unfolding write_map os_write_file syscall_mode
write_map-eq-ok K path inside outside length l h =
    let (kind, l1, e, h1) = >>=-eq-ok _ _ l h in
    cc (do_stat-eq-ok K (dir path) l e, perform-eq-ok K _ l1 h1)

-- The range that is found is that of the first line that has one for the user.
pub first_range-first :
    (username : String) (lines : List String) (r : ℕ × ℕ)
    → first_range username lines ≡ some r
    → (before : List String) × (line : String) × (after : List String) × (lines
        ≡ before ++ line ∷ after)
      × All (λ other. line_range username other ≡ none) before
      × (line_range username line ≡ some r)
unfolding first_range
first_range-first username [] r h = absurd (cc)
first_range-first username (line ∷ lines) r h = elim (Option-cases (line_range username line)) [
  | inr (x, p) ↦ ([], line, lines, refl, tt, ground arith)
  | inl p ↦
      let (before, found, after, e, none_before, q) =
        first_range-first username lines r (rw p at h) in
      (line ∷ before, found, after, ap (λ ls. line ∷ ls) e, (p, none_before), q)
]

-- As root, with a user namespace of its own, a child whose identifiers were mapped has exactly its
-- root mapped to the host's: the last calls have written the one line of each map, with success.
map_root-eq-ok :
    (K : Kernel) (pid : ℕ) (l : Log) {l' : Log}
    → map_root K pid l ≡ (ok tt, l')
    → l'
      ≡ done (write_file (proc_file pid "gid_map") "0 0 1\n" 0o644)
        ∷ done (stat (dir (proc_file pid "gid_map")))
        ∷ done (write_file (proc_file pid "uid_map") "0 0 1\n" 0o644)
        ∷ done (stat (dir (proc_file pid "uid_map")))
        ∷ l
unfolding map_root map_line decimal
map_root-eq-ok K pid l h =
    let (_, l1, e1, h1) = >>=-eq-ok _ _ l h in
    cc (
      write_map-eq-ok K _ 0 0 1 l (wrapping-eq-ok _ _ _ l e1),
      write_map-eq-ok K _ 0 0 1 l1 (wrapping-eq-ok _ _ _ l1 h1),
    )
