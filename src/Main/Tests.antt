-- ===== src/Main/Tests.antt =====
-- The theorems on the command line and on the whole program at concrete inputs.
use microbox.Base.{◌+◌, true, false, some, [], ◌∷◌, ◌≡◌, refl}
use microbox.Os.{ok, pure, raise, lift, ◌>>=◌, wrapping}
use microbox.Os.Sample.{obliging}
use microbox.Net.Ipam.{CidrLibrary}
use microbox.Sandbox.Capabilities.{
  CapLibrary, new_cap_set, from_capabilities, from_capabilities_loop,
}
use microbox.Fs.Mount.{fs_tmpfs}
use microbox.Net.{net_bridge}
use microbox.Sandbox.Flags.{user_namespace_isolated}
use microbox.Base.Cut.{cut}
use microbox.Base.Keys.{insert_all}
use microbox.Filepath.{is_abs}
use microbox.Options.{parse_user_namespace, parse_fs_mode, parse_net_mode, parse_mount, parse_env}
use microbox.Options.Logging.{parse_log_level, parse_log_format, level_error, log_text}
use microbox.Options.Env.{merge_env, default_environment}
use microbox.Options.Cli.{
  CliFlags, default_cli_flags, CliOptions, ByteSize, acting, parse_each, check_options,
  parse_values, parse_lists, build_options_from_cli, set_commands, run_action,
}
use microbox.Options.Cli.Checked.{Checked, is_nil, run_action-Checked}
use microbox.Main.{main}
use microbox.Main.Exits.{Ends, main-Ends}

abbrev no_capabilities : CapLibrary
no_capabilities = record { list_known = []; name = λ n. "" }

abbrev one_mebibyte : ByteSize
one_mebibyte text = some 1048576

abbrev next_number : CidrLibrary
next_number = record { address_range = λ subnet. (subnet.0, subnet.0 + 255); inc = λ a. a + 1 }

abbrev some_flags : CliFlags
some_flags = record (default_cli_flags "box") {
  net = "bridge";
  mount_ro = "/usr:/mnt" ∷ [];
  readonly = true;
  env = "LANG=C" ∷ [];
  args = "/bin/true" ∷ [];
}

main-Ends_example :
    Ends obliging no_capabilities one_mebibyte next_number 256 3
      (acting some_flags)
      []
      (main obliging no_capabilities one_mebibyte next_number 256 3 (acting some_flags) []).1
main-Ends_example =
    main-Ends obliging no_capabilities one_mebibyte next_number 256 3 (acting some_flags) []

abbrev some_result : CliOptions
some_result = record {
  sandbox = record {
    fs = record { mode = fs_tmpfs; path = "" };
    read_only = true;
    net = net_bridge;
    mount_ro = record { host = "/usr"; dest = "/mnt"; ro = true } ∷ [];
    mount_rw = [];
    capabilities = record { add = []; drop = [] };
    namespace_mode = user_namespace_isolated;
    name_serv = [];
    env = merge_env default_environment (record { key = "LANG"; val = "C" } ∷ []);
    allow_sys = [];
    deny_sys = [];
    commands = "/bin/true" ∷ [];
    hostname = "box";
    storage = 1048576;
  };
  cpus = record { unlimited = false; quota = 100000 };
  memory = 1048576;
  log_level = level_error;
  log_format = log_text;
}

some_run : run_action obliging no_capabilities one_mebibyte some_flags [] ≡ (ok some_result, [])
unfolding run_action ◌>>=◌ build_options_from_cli parse_values parse_user_namespace parse_log_level
    parse_log_format parse_fs_mode parse_net_mode parse_lists parse_each parse_mount cut parse_env
    wrapping from_capabilities from_capabilities_loop check_options set_commands lift pure raise
    new_cap_set insert_all is_abs
some_run = refl

run_action-Checked_example :
    Checked no_capabilities some_flags some_result
    × (some_result.sandbox.commands ≡ "/bin/true" ∷ [])
    × (is_nil ("/bin/true" ∷ []) ≡ false)
run_action-Checked_example =
    run_action-Checked obliging no_capabilities one_mebibyte some_flags [] some_run
