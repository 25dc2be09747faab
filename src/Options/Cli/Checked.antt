-- ===== src/Options/Cli/Checked.antt =====
-- What the options are that the command line is turned into.
use text.Mathlib.TextLemmas.{cons-append, nil-append}
use microbox.Base.{
  String, ◌<>◌, Bool, true, false, ◌&&◌, ◌||◌, Option, none, some, List, [], ◌∷◌, map, ◌≡◌, refl,
  ◌∙◌, sym, ap, inl, inr, Bool-cases,
}
use microbox.Base.Text.{is_empty}
use microbox.Base.Keys.{nat_eq, Distinct, insert_all-Distinct}
use microbox.Base.Lists.{All}
use microbox.Base.Cut.{cut, cut-some}
use microbox.Filepath.{is_abs}
use microbox.Net.{network_mode_string}
use microbox.Os.{errorf, Log, Result, ok, Kernel, pure, lift}
use microbox.Os.Success.{>>=-eq-ok, pure-eq-ok, raise-eq-ok, ok-injective, err≢ok, guard-eq-ok}
use microbox.Os.Success.Returns.{Returns, Returns-bind, Returns-bind-Returns, Returns-pure}
use microbox.Fs.Mount.{MountSpec}
use microbox.Sandbox.Capabilities.{CapLibrary, new_cap_set}
use microbox.Sandbox.Env.{EnvVar, env_string}
use microbox.Options.{parsed_env, parse_env, parse_mount}
use microbox.Options.Env.{default_environment, merge_env}
use microbox.Options.Laws.{parse_mount-eq-ok, parse_net_mode-eq-ok}
use microbox.Options.Cli.{
  CliFlags, CliOptions, ByteSize, parse_each, is_host_fs, has_mounts, check_options, CliLists,
  parse_values, parse_lists, assemble, build_options_from_cli, set_commands, run_action,
}

-- The text that a mount was parsed from, and what is known of it.
abbrev pub mount_text : MountSpec → String
mount_text m = m.host <> String.◌∷◌ ":" m.dest

abbrev pub MountOk : Bool → MountSpec → Type 0
MountOk ro m = (m.ro ≡ ro) × (is_empty m.host ≡ false) × (is_abs m.dest ≡ true)

lift-eq-ok :
    {A : Type 0} (r : Result A) (l : Log) {a : A} {l' : Log} → lift r l ≡ (ok a, l') → r ≡ ok a
unfolding lift
lift-eq-ok r l h = ap (λ x. x.0) h

-- The values that a loop has parsed print as the texts that it was given.
parse_each-eq-ok :
    {A : Type 0} (parse : String → Result A) (text : A → String) (P : A → Type 0)
    → ((s : String) (a : A) → parse s ≡ ok a → (text a ≡ s) × P a)
    → (xs : List String) (l : Log) {parsed : List A} {l' : Log}
    → parse_each parse xs l ≡ (ok parsed, l')
    → (map text parsed ≡ xs) × All P parsed
unfolding parse_each
parse_each-eq-ok parse text P known [] l h = rw (← (pure-eq-ok _ l h).0) (refl, tt)
parse_each-eq-ok parse text P known (x ∷ xs) l h =
    let (a, k1, p, h1) = >>=-eq-ok _ _ l h in
    let (rest, k2, q, h2) = >>=-eq-ok _ _ k1 h1 in
    let (same, holds) = known x a (lift-eq-ok (parse x) l p) in
    let (more, all) = parse_each-eq-ok parse text P known xs k1 q in
    rw (← (pure-eq-ok _ k2 h2).0) ((λ i. same i ∷ more i), (holds, all))

parsed_env-eq-ok :
    (kv : String) (o : Option (String × String)) {e : EnvVar}
    → parsed_env kv o ≡ ok e
    → (o ≡ some (e.key, e.val)) × (is_empty e.key ≡ false)
parsed_env-eq-ok kv none h = absurd (err≢ok h)
parsed_env-eq-ok kv (some (k, v)) h = elim (Bool-cases (is_empty k)) [
  | inl p ↦ absurd (err≢ok (rw p at h))
  | inr p ↦ rw (← ok-injective (rw p at h)) (refl, p)
]

parse_env-eq-ok :
    (kv : String) (e : EnvVar)
    → parse_env kv ≡ ok e
    → (env_string e ≡ kv) × (is_empty e.key ≡ false)
unfolding parse_env env_string
parse_env-eq-ok kv e h =
    let (found, key) = parsed_env-eq-ok kv (cut "=" kv) h in
    let (whole, _) = cut-some "=" kv e.key e.val found in
    (ap (λ t. e.key <> t) (rw (cons-append, nil-append) refl) ∙ sym whole, key)

mount_known :
    (ro : Bool) (s : String) (m : MountSpec)
    → parse_mount s ro ≡ ok m
    → (mount_text m ≡ s) × MountOk ro m
mount_known ro s m h =
    let (whole, _, host, dest, same) = parse_mount-eq-ok s ro h in (sym whole, (same, host, dest))

abbrev pub is_nil : List String → Bool
is_nil [] = true
is_nil (x ∷ xs) = false

-- What the options have to do with the flags.
pub record Checked (C : CapLibrary) (c : CliFlags) (o : CliOptions) : Type 0 where
  -- The mounts are those of the flags, in order, with a source and an absolute destination.
  pub mounts_ro : map mount_text o.sandbox.mount_ro ≡ c.mount_ro
  pub mounts_rw : map mount_text o.sandbox.mount_rw ≡ c.mount_rw
  pub all_ro : All (MountOk true) o.sandbox.mount_ro
  pub all_rw : All (MountOk false) o.sandbox.mount_rw
  -- The host's file system has no mounts.
  pub no_host_mounts :
      (is_host_fs o.sandbox.fs.mode
        && (has_mounts o.sandbox.mount_ro || has_mounts o.sandbox.mount_rw))
      ≡ false
  -- The variables are the default ones and the user's, which print as the texts given.
  pub user_env : List EnvVar
  pub given_env : map env_string user_env ≡ c.env
  pub merged_env : o.sandbox.env ≡ merge_env default_environment user_env
  pub net_name : network_mode_string o.sandbox.net ≡ c.net
  -- No capability is added twice or dropped twice.
  pub cap_sets : Distinct o.sandbox.capabilities.add × Distinct o.sandbox.capabilities.drop

check_options-eq-ok :
    (o : CliOptions) (l : Log) {o' : CliOptions} {l' : Log}
    → check_options o l ≡ (ok o', l')
    → (o ≡ o')
      × ((is_host_fs o.sandbox.fs.mode
            && (has_mounts o.sandbox.mount_ro || has_mounts o.sandbox.mount_rw))
          ≡ false)
unfolding check_options
check_options-eq-ok o l h =
    let (fine, h1) =
      guard-eq-ok
        (is_host_fs o.sandbox.fs.mode
          && (has_mounts o.sandbox.mount_ro || has_mounts o.sandbox.mount_rw))
        (errorf "--fs host conflicts with --mount-* (requires private mount ns)" []) (pure o) l h in
    ((pure-eq-ok o l h1).0, fine)

-- What the lists have to do with the flags.
pub record ListsOk (c : CliFlags) (w : CliLists) : Type 0 where
  pub ro_mounts : (map mount_text w.mount_ro ≡ c.mount_ro) × All (MountOk true) w.mount_ro
  pub rw_mounts : (map mount_text w.mount_rw ≡ c.mount_rw) × All (MountOk false) w.mount_rw
  pub env : map env_string w.env ≡ c.env
  pub caps : Distinct w.capabilities.add × Distinct w.capabilities.drop

parse_each-Returns :
    {A : Type 0} (parse : String → Result A) (text : A → String) (P : A → Type 0)
    → ((s : String) (a : A) → parse s ≡ ok a → (text a ≡ s) × P a)
    → (xs : List String)
    → Returns (λ parsed _. (map text parsed ≡ xs) × All P parsed) (parse_each parse xs)
parse_each-Returns parse text P known xs = record {
  at = λ l parsed l' h. parse_each-eq-ok parse text P known xs l h;
}

module _ (K : Kernel) (C : CapLibrary) (parse_size : ByteSize) (c : CliFlags) where
  parse_lists-ListsOk : Returns (λ w _. ListsOk c w) (parse_lists K C parse_size c)
  unfolding parse_lists new_cap_set
  parse_lists-ListsOk =
      Returns-bind-Returns _ _ _ _
        (parse_each-Returns _ mount_text (MountOk true) (mount_known true) c.mount_ro)
        (λ mount_ro ro.
          Returns-bind-Returns _ _ _ _
            (parse_each-Returns _ mount_text (MountOk false) (mount_known false) c.mount_rw)
            (λ mount_rw rw_ok.
              Returns-bind-Returns _ _ _ _
                (parse_each-Returns parse_env env_string (λ e. is_empty e.key ≡ false)
                  parse_env-eq-ok c.env)
                (λ env vars. Returns-bind _ _ _ (λ add_ids. Returns-bind _ _ _ (λ drop_ids.
                  Returns-pure _ _ (λ _. record {
                    ro_mounts = ro;
                    rw_mounts = rw_ok;
                    env = vars.0;
                    caps = (insert_all-Distinct add_ids [] tt, insert_all-Distinct drop_ids [] tt);
                  }))))))

  parse_values-net :
      Returns (λ v _. network_mode_string v.net ≡ c.net) (parse_values K C parse_size c)
  unfolding parse_values
  parse_values-net = Returns-bind _ _ _ (λ _. Returns-bind _ _ _ (λ _. Returns-bind _ _ _ (λ _.
      Returns-bind _ _ _ (λ _. Returns-bind _ _ _ (λ _. Returns-bind _ _ _ (λ _.
        Returns-bind-Returns _ (λ m. network_mode_string m ≡ c.net) _ _
          (record { at = λ l m l' h. parse_net_mode-eq-ok c.net (lift-eq-ok _ l h) })
          (λ net h. Returns-pure _ _ (λ _. h))))))))

  -- Options that are built are checked.
  build-Checked : Returns (λ o _. Checked C c o) (build_options_from_cli K C parse_size c)
  unfolding build_options_from_cli
  build-Checked =
      Returns-bind-Returns _ (λ v. network_mode_string v.net ≡ c.net) _ _ parse_values-net
        (λ v net_ok. Returns-bind-Returns _ (ListsOk c) _ _ parse_lists-ListsOk (λ w lists. record {
          at = λ l o l' h.
              let (same, fine) = check_options-eq-ok (assemble c v w) l h in
              rw (← same) (record {
                mounts_ro = lists.ro_mounts.0;
                mounts_rw = lists.rw_mounts.0;
                all_ro = lists.ro_mounts.1;
                all_rw = lists.rw_mounts.1;
                no_host_mounts = fine;
                user_env = w.env;
                given_env = lists.env;
                merged_env = refl;
                net_name = net_ok;
                cap_sets = lists.caps;
              });
        }))

  set_commands-Checked :
      (o : CliOptions) (argv : List String) (l : Log) {o' : CliOptions} {l' : Log}
      → Checked C c o
      → set_commands K C parse_size o argv l ≡ (ok o', l')
      → Checked C c o' × (o'.sandbox.commands ≡ argv) × (is_nil argv ≡ false)
  unfolding set_commands
  set_commands-Checked o [] l k h = absurd (raise-eq-ok _ l h)
  set_commands-Checked o (arg ∷ argv) l k h = rw (← (pure-eq-ok _ l h).0) (
    record {
      mounts_ro = k.mounts_ro;
      mounts_rw = k.mounts_rw;
      all_ro = k.all_ro;
      all_rw = k.all_rw;
      no_host_mounts = k.no_host_mounts;
      user_env = k.user_env;
      given_env = k.given_env;
      merged_env = k.merged_env;
      net_name = k.net_name;
      cap_sets = k.cap_sets;
    },
    refl,
    refl,
  )

  -- Options that the action returns have the mounts, variables and network mode that the texts of the
  -- flags say, each mount with a source and an absolute destination, none with the file system of the
  -- host, and no capability twice (`Checked`); their command is the arguments, which are not none.
  pub run_action-Checked :
      (l : Log) {o : CliOptions} {l' : Log}
      → run_action K C parse_size c l ≡ (ok o, l')
      → Checked C c o × (o.sandbox.commands ≡ c.args) × (is_nil c.args ≡ false)
  unfolding run_action
  run_action-Checked l h =
      let (built, k, p, q) = >>=-eq-ok _ _ l h in
      set_commands-Checked built c.args k (build-Checked.at l built k p) q
