-- ===== src/Os/Calls.antt =====
-- The system calls that the program makes, with their arguments, and the log that they leave.
use mathlib.Core.Bool.{Bool, false, ◌||◌}
use mathlib.Core.Option.{Option}
use mathlib.Core.List.{List, [], ◌∷◌}
use Prim.Native.Nat.{ℕ}
use microbox.Base.{◌=ᵇ◌}
use microbox.Base.Space.{ℤ}
use Prim.Native.String.{String}
use microbox.Os.Errors.{Errno}

-- The `S_IFMT` part of a file's mode.
pub data FileKind : Type 0 where
  directory regular char_device block_device fifo socket symbolic_link unknown_kind : FileKind

-- The `MS_` flags of mount(2). A call's flag word is the list of its bits.
pub data MountFlag : Type 0 where
  bind recursive nosuid nodev noexec strictatime remount rdonly private_mount : MountFlag

-- The kinds of capability sets, and the groups of them, of the capability library.
pub data CapType : Type 0 where
  bounding permitted effective inheritable : CapType

pub data CapGroup : Type 0 where
  caps bounds ambient : CapGroup

-- The `CLONE_` flags of clone3(2).
pub data CloneFlag : Type 0 where
  newpid newuts newipc pidfd newcgroup newtime newns newnet newuser : CloneFlag

-- A pointer that clone3(2) is given: none, or the one to the variable for the child's descriptor.
pub data UserPointer : Type 0 where
  null pidfd_variable : UserPointer

-- What clone3(2) is given.
pub record CloneArgs : Type 0 where
  pub flags : List CloneFlag
  pub pid_fd : UserPointer
  pub child_tid : UserPointer
  pub parent_tid : UserPointer
  pub exit_signal : ℕ
  pub stack : ℕ
  pub stack_size : ℕ
  pub tls : ℕ
  pub set_tid : UserPointer
  pub set_tid_size : ℕ
  pub cgroup : ℕ

-- The calls of a bolt database: the file's path, a bucket, a key.
pub data DbCall : Type 0 where
  db_open db_close db_begin db_commit db_rollback : String → DbCall
  db_make_bucket db_find_bucket : String → String → DbCall
  db_get db_put db_delete : String → String → String → DbCall

-- A network interface, as netlink describes it, and a route.
pub record Link : Type 0 where
  pub name : String
  pub index : ℕ
  pub master : ℕ

pub record Route : Type 0 where
  pub link_index : ℕ
  -- No destination is given.
  pub is_default : Bool

-- The calls of the netlink, netns and iptables libraries. An address is a number with the length of
-- its prefix.
pub data NetCall : Type 0 where
  link_by_name : String → NetCall
  link_by_index : ℕ → NetCall
  add_bridge : String → ℕ → NetCall
  add_veth : String → String → ℕ → ℕ → NetCall
  link_attrs : String → NetCall
  link_up link_del : Link → NetCall
  link_set_name : Link → String → NetCall
  link_set_master : Link → Link → NetCall
  link_set_ns : Link → ℕ → NetCall
  addr_list : Link → NetCall
  addr_add : Link → ℕ × ℕ → NetCall
  route_get route_list : NetCall
  route_replace : ℕ → ℕ → NetCall
  ns_get : NetCall
  ns_get_pid ns_set ns_close : ℕ → NetCall
  ipt_new : NetCall
  ipt_exists ipt_insert : String → String → List String → NetCall

pub data Call : Type 0 where
  stat lstat : String → Call
  mkdir mkdir_all chmod : String → ℕ → Call
  create_file : String → ℕ → Call
  close_file : String → Call
  write_file : String → String → ℕ → Call
  remove chdir : String → Call
  symlink : String → String → Call
  mount : String → String → String → List MountFlag → String → Call
  detach : String → Call
  pivot_root : String → String → Call
  warn log_failure : String → Call
  geteuid getegid now : Call
  open_file read_file : String → Call
  write_fd : ℕ → String → Call
  read_fd : ℕ → Call
  append_file : String → String → Call
  close_fd : ℕ → Call
  look_path : String → Call
  current_user : Call
  run : String → List String → Call
  pipe2 : Call
  new_uuid : Call
  clone3 : CloneArgs → Call
  kill : ℤ → ℕ → Call
  wait4 : ℕ → Call
  sethostname : String → Call
  exec : String → List String → List String → Call
  exit : ℕ → Call
  prctl_no_new_privs : Call
  filter_new filter_load filter_release : Call
  filter_add_rule : String → Errno → Call
  caps_open : ℕ → Call
  caps_clear : List CapGroup → Call
  caps_set : CapType → List ℕ → Call
  caps_apply : List CapGroup → Call
  show_help : Call
  print_error note : String → Call
  sleep : ℕ → Call
  db : DbCall → Call
  net : NetCall → Call

pub record Event : Type 0 where
  pub call : Call
  pub failure : Option Errno

-- How a child ended, as wait4(2) reports it.
pub data WaitStatus : Type 0 where
  exited signaled : ℕ → WaitStatus
  other_status : WaitStatus

-- What has been called so far, the latest call first.
abbrev pub Log : Type 0
Log = List Event

-- The bit of a flag in mount(2)'s word.
abbrev pub flag_bit : MountFlag → ℕ
flag_bit rdonly = 1
flag_bit nosuid = 2
flag_bit nodev = 4
flag_bit noexec = 8
flag_bit remount = 32
flag_bit bind = 4096
flag_bit recursive = 16384
flag_bit private_mount = 262144
flag_bit strictatime = 16777216

abbrev pub has_flag : MountFlag → List MountFlag → Bool
has_flag f [] = false
has_flag f (g ∷ gs) = flag_bit f =ᵇ flag_bit g || has_flag f gs

abbrev pub clone_flag_bit : CloneFlag → ℕ
clone_flag_bit newpid = 0x20000000
clone_flag_bit newuts = 0x4000000
clone_flag_bit newipc = 0x8000000
clone_flag_bit pidfd = 0x1000
clone_flag_bit newcgroup = 0x2000000
clone_flag_bit newtime = 0x80
clone_flag_bit newns = 0x20000
clone_flag_bit newnet = 0x40000000
clone_flag_bit newuser = 0x10000000

abbrev pub has_clone_flag : CloneFlag → List CloneFlag → Bool
has_clone_flag f [] = false
has_clone_flag f (g ∷ gs) = clone_flag_bit f =ᵇ clone_flag_bit g || has_clone_flag f gs
