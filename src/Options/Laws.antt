-- ===== src/Options/Laws.antt =====
-- What the parsers accept.
use text.Mathlib.TextLemmas.{cons-append, nil-append}
use microbox.Base.{
  String, ◌<>◌, Bool, true, false, ◌||◌, ◌≡◌, refl, sym, arith, Option, none, some, inl, inr,
  Bool-cases, ◌==◌, eq_iff,
}
use microbox.Base.Text.{is_empty, contains_char}
use microbox.Base.Cut.{cut-append, cut-some}
use microbox.Filepath.{is_abs}
use microbox.Net.{NetworkMode, network_mode_string}
use microbox.Os.{ok}
use microbox.Os.Success.{ok-injective, err≢ok}
use microbox.Fs.Mount.{MountSpec}
use microbox.Sandbox.Env.{EnvVar, env_string}
use microbox.Options.{parse_env, parsed_mount, parse_mount, parse_net_mode}

-- A variable whose key is not empty and has no equals sign reads back from the text `KEY=VALUE` that
-- the command is given, whatever its value is.
pub parse_env-env_string :
    (e : EnvVar)
    → is_empty e.key ≡ false
    → contains_char "=" e.key ≡ false
    → parse_env (env_string e) ≡ ok e
unfolding parse_env env_string
parse_env-env_string e h n =
    let text : "=" <> e.val ≡ String.◌∷◌ "=" e.val = rw (cons-append, nil-append) refl in
    rw text (rw (cut-append "=" e.key e.val n) (rw h refl))

parsed_mount-eq-ok :
    (spec : String) (ro : Bool) (o : Option (String × String)) {m : MountSpec}
    → parsed_mount spec ro o ≡ ok m
    → (o ≡ some (m.host, m.dest)) × (m.ro ≡ ro) × (is_empty m.host ≡ false) × (is_abs m.dest ≡ true)
parsed_mount-eq-ok spec ro none h = absurd (err≢ok h)
parsed_mount-eq-ok spec ro (some (host, dest)) h =
    elim (Bool-cases (is_empty host || is_empty dest)) [
      | inl p ↦ absurd (err≢ok (rw p at h))
      | inr p ↦ elim (Bool-cases (is_abs dest)) [
        | inr q ↦ absurd (err≢ok (rw (p, q) at h))
        | inl q ↦ rw (← ok-injective (rw (p, q) at h)) (refl, refl, ground arith, q)
      ]
    ]

-- A mount that is accepted is its text cut at the first colon: a source that is not empty and has no
-- colon, and an absolute destination, which may have one.
pub parse_mount-eq-ok :
    (spec : String) (ro : Bool) {m : MountSpec}
    → parse_mount spec ro ≡ ok m
    → (spec ≡ m.host <> String.◌∷◌ ":" m.dest)
      × (contains_char ":" m.host ≡ false)
      × (is_empty m.host ≡ false)
      × (is_abs m.dest ≡ true)
      × (m.ro ≡ ro)
unfolding parse_mount
parse_mount-eq-ok spec ro {m} h =
    let (found, same, host, dest) = parsed_mount-eq-ok spec ro _ h in
    let (whole, plain) = cut-some ":" spec m.host m.dest found in (whole, plain, host, dest, same)

-- A network mode is accepted only by its own name: it is written as the text that was given.
pub parse_net_mode-eq-ok :
    (s : String) {m : NetworkMode} → parse_net_mode s ≡ ok m → network_mode_string m ≡ s
unfolding parse_net_mode network_mode_string
parse_net_mode-eq-ok s h = elim (Bool-cases (s == "none")) [
  | inl p ↦ rw (← ok-injective (rw p at h)) (sym ((eq_iff s "none").0 p))
  | inr p ↦ elim (Bool-cases (s == "host")) [
    | inl q ↦ rw (← ok-injective (rw (p, q) at h)) (sym ((eq_iff s "host").0 q))
    | inr q ↦ elim (Bool-cases (s == "bridge")) [
      | inl r ↦ rw (← ok-injective (rw (p, q, r) at h)) (sym ((eq_iff s "bridge").0 r))
      | inr r ↦ absurd (err≢ok (rw (p, q, r) at h))
    ]
  ]
]
