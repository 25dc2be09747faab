-- ===== src/Os/Sample.antt =====
-- A kernel for tests.
use mathlib.Core.Option.{none}
use mathlib.Core.Bool.{true, false}
use mathlib.Core.List.{[], ◌∷◌}
use microbox.Os.Calls.{directory, exited}
use microbox.Os.Actions.{Kernel, got}

-- Every call succeeds, everything is a directory, no file has text and every database is empty.
abbrev pub obliging : Kernel
obliging = record {
  act = λ _ _. none;
  stat = λ _ _. got directory;
  lstat = λ _ _. got directory;
  geteuid = λ _. 0;
  getegid = λ _. 0;
  now = λ _. 7;
  read_file = λ _ _. got ("", none);
  read_fd = λ _ _. got "";
  look_path = λ _ file. got file;
  current_user = λ _. got "root";
  pipe2 = λ _. got (3, 4);
  new_uuid = λ _. "9b2d";
  clone3 = λ _. got (42, 6);
  wait4 = λ _ pid. got (pid, exited 0);
  db_has_bucket = λ _ _ _. true;
  db_has = λ _ _ _ _. false;
  link_by_name = λ _ name. got (record { name = name; index = 5; master = 0 });
  link_by_index = λ _ index. got (record { name = "eth1"; index = index; master = 0 });
  link_attrs = λ _ name. record { name = name; index = 4; master = 0 };
  addr_list = λ _ _. got [];
  route_get = λ _. got (record { link_index = 2; is_default = false } ∷ []);
  route_list = λ _. got [];
  ipt_exists = λ _ _ _ _. got false;
  ns_get = λ _. got 8;
  ns_get_pid = λ _ _. got 9;
}
