-- ===== src/Net/Ipam.antt =====
-- net/ipam.go: the allocation of addresses, kept in a bolt database. The go-cidr library is a
-- parameter; so is what the database answers (`Kernel`).
pub mod Leases
pub mod Picked
pub mod Transactions
pub mod Reserved
pub mod Allocated
pub mod Released
pub mod Storing
pub mod Succeeds
pub mod Ends
pub mod Session
use mathlib.Core.List.{List, [], ◌∷◌, map}
use microbox.Base.{ℕ, zero, suc, String, Bool, true, false, Option, none, some, if◌then◌else◌, ltb}
use microbox.Base.Text.{is_empty}
use microbox.Base.Keys.{string_eq, member, insert_all}
use microbox.Filepath.{dir}
use microbox.Os.{
  Error, errorf, db, db_open, db_close, db_begin, db_commit, db_rollback, db_make_bucket,
  db_find_bucket, db_get, db_put, db_delete, Result, ok, err, Kernel, Io, pure, raise, ◌>>=◌, ◌>>◌,
  query, wrapping, ignoring, finally, branching, perform, os_mkdir_all,
}
use microbox.Net.Address.{ip_string, parse_cidr, cidr_string, network_of}

-- go-cidr: the first and the last address of a network with a prefix, and the next address.
pub record CidrLibrary : Type 0 where
  pub address_range : ℕ × ℕ → ℕ × ℕ
  pub inc : ℕ → ℕ

pub record IpamOptions : Type 0 where
  pub subnet_cidr : String
  pub db_path : String
  pub reserved : List ℕ

pub record IpamAllocator : Type 0 where
  pub db_path : String
  pub bucket : String
  pub subnet : ℕ × ℕ
  pub prefix : ℕ
  pub ip : ℕ
  pub reserved : List String

abbrev pub ipam_default_db_path : String
ipam_default_db_path = "/var/run/microbox/ipam.db"

module _ (K : Kernel) where
  -- `withDB`
  unfoldable pub with_db {ℓ} : {A : Type ℓ} → String → Io A → Io A
  with_db path f = perform K (db (db_open path)) >> finally f (perform K (db (db_close path)))

  -- bolt's `DB.Update`: a transaction, which is committed if the function returns no error, and else
  -- rolled back.
  unfoldable pub in_transaction {ℓ} : {A : Type ℓ} → String → Io A → Io A
  in_transaction path f =
      branching f (λ a. perform K (db (db_commit path)) >> pure a)
        (λ e. ignoring (perform K (db (db_rollback path))) >> raise e)

  unfoldable pub db_update {ℓ} : {A : Type ℓ} → String → Io A → Io A
  db_update path f = perform K (db (db_begin path)) >> in_transaction path f

  -- The key of an address that is free is put; `rest` goes on with the next address.
  unfoldable pub put_if_free : String → String → ℕ → Io (Option ℕ) → Bool → Io (Option ℕ)
  put_if_free path bucket cur rest taken = if taken then rest else do
    wrapping "reserve %s: %w" (ip_string cur ∷ [])
        (perform K (db (db_put path bucket (ip_string cur))))
    pure (some cur)

  -- One round of the loop of `AllocateIP`.
  unfoldable pub consider : String → String → List String → ℕ → Io (Option ℕ) → Io (Option ℕ)
  consider path bucket reserved cur rest =
      if member (ip_string cur) reserved
      then rest
      else query (db (db_get path bucket (ip_string cur)))
          (λ l. K.db_has l path bucket (ip_string cur))
        >>= put_if_free path bucket cur rest

  -- The loop, for a number of rounds: `none` when they are used up.
  unfoldable pub pick : CidrLibrary → String → String → List String → ℕ → ℕ → ℕ → Io (Option ℕ)
  pick L path bucket reserved last zero cur = pure none
  pick L path bucket reserved last (suc rounds) cur =
      if ltb cur last
      then consider path bucket reserved cur (pick L path bucket reserved last rounds (L.inc cur))
      else raise (errorf "no free IPs in %s" (bucket ∷ []))

  -- The function that `AllocateIP` gives to the database.
  unfoldable pub reserve_first :
      CidrLibrary → String → String → List String → ℕ × ℕ → ℕ → Io (Option ℕ)
  reserve_first L path bucket reserved range rounds =
      perform K (db (db_make_bucket path bucket))
      >> pick L path bucket reserved range.1 rounds (L.inc range.0)

-- The addresses that are not given away: the network, the broadcast address and the caller's.
unfoldable pub reserved_set : ℕ × ℕ → List ℕ → List String
reserved_set range ips = insert_all (ip_string range.0 ∷ ip_string range.1 ∷ map ip_string ips) []

abbrev pub path_or_default : String → String
path_or_default path = if is_empty path then ipam_default_db_path else path

unfoldable pub allocated : IpamOptions → ℕ × ℕ → List String → Option ℕ → Option IpamAllocator
allocated opts subnet reserved none = none
allocated opts subnet reserved (some ip) = some (record {
  db_path = path_or_default opts.db_path;
  bucket = opts.subnet_cidr;
  subnet = subnet;
  prefix = subnet.1;
  ip = ip;
  reserved = reserved;
})

module _ (K : Kernel) (L : CidrLibrary) where
  -- `AllocateIP`, once the subnet is known: its network and the length of its prefix.
  unfoldable pub allocate_in : ℕ → IpamOptions → ℕ × ℕ → Io (Option IpamAllocator)
  allocate_in rounds opts subnet = do
    let path = path_or_default opts.db_path
    let range = L.address_range subnet
    let reserved = reserved_set range opts.reserved
    wrapping "ipam: mkdir: %w" [] (os_mkdir_all K (dir path) 0o755)
    picked ← wrapping "ipam: open DB: %w" [] (
        with_db K path
          (db_update K path (reserve_first K L path opts.subnet_cidr reserved range rounds)))
    pure (allocated opts subnet reserved picked)

  unfoldable pub allocate_parsed : ℕ → IpamOptions → Option (ℕ × ℕ) → Io (Option IpamAllocator)
  allocate_parsed rounds opts none = raise (errorf "invalid subnet CIDR: %w" [])
  allocate_parsed rounds opts (some (ip, prefix)) =
      allocate_in rounds opts (network_of ip prefix, prefix)

  -- `AllocateIP`, for a number of rounds of its loop. A subnet of IP version 6 is refused with a
  -- message of its own.
  unfoldable pub allocate_ip : ℕ → IpamOptions → Io (Option IpamAllocator)
  allocate_ip rounds opts =
      if is_empty opts.subnet_cidr
      then raise (errorf "SubnetCIDR must be provided" [])
      else allocate_parsed rounds opts (parse_cidr opts.subnet_cidr)

-- `IpamAllocator.IP`
unfoldable pub allocated_ip : IpamAllocator → String
allocated_ip ia = cidr_string ia.ip ia.prefix

module _ (K : Kernel) where
  -- The function that `Release` gives to the database.
  unfoldable pub delete_key : IpamAllocator → Io (Unit {0})
  delete_key ia = do
    there ←
        query (db (db_find_bucket ia.db_path ia.bucket))
          (λ l. K.db_has_bucket l ia.db_path ia.bucket)
    if there then perform K (db (db_delete ia.db_path ia.bucket (ip_string ia.ip))) else pure tt

  -- `IpamAllocator.Release`
  unfoldable pub release : IpamAllocator → Io (Unit {0})
  release ia = with_db K ia.db_path (db_update K ia.db_path (delete_key ia))
