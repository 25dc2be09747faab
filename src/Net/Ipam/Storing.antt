-- ===== src/Net/Ipam/Storing.antt =====
-- What an allocation calls: the database, and the making of its directory.
use microbox.Base.{ℕ, zero, suc, String, Bool, Option, none, some, List}
use microbox.Os.{Call, db, mkdir_all, Kernel, Io, os_mkdir_all}
use microbox.Os.Keeps.{Emits, emits_rules}
use microbox.Net.Ipam.{
  CidrLibrary, IpamOptions, put_if_free, consider, pick, reserve_first, in_transaction, db_update,
  with_db, allocate_in, allocate_parsed, allocate_ip,
}
use microbox.Net.Address.{network_of}

abbrev pub Storing : Call → Type 0
Storing (db c) = Unit
Storing (mkdir_all p m) = Unit
Storing _ = ⊥

module _ (K : Kernel) where
  put_if_free-Storing :
      (path bucket : String) (cur : ℕ) (rest : Io (Option ℕ)) (taken : Bool)
      → Emits Storing rest
      → Emits Storing (put_if_free K path bucket cur rest taken)
  unfolding put_if_free
  put_if_free-Storing path bucket cur rest taken h = search emits_rules depth 9

  consider-Storing :
      (path bucket : String) (reserved : List String) (cur : ℕ) (rest : Io (Option ℕ))
      → Emits Storing rest
      → Emits Storing (consider K path bucket reserved cur rest)
  unfolding consider
  consider-Storing path bucket reserved cur rest h =
      search (emits_rules, put_if_free-Storing) depth 9

  in_transaction-Storing :
      {A : Type 0} (path : String) (f : Io A)
      → Emits Storing f
      → Emits Storing (in_transaction K path f)
  unfolding in_transaction
  in_transaction-Storing path f h = search emits_rules depth 9

  db_update-Storing :
      {A : Type 0} (path : String) (f : Io A) → Emits Storing f → Emits Storing (db_update K path f)
  unfolding db_update
  db_update-Storing path f h = search (emits_rules, in_transaction-Storing) depth 9

  with_db-Storing :
      {A : Type 0} (path : String) (f : Io A) → Emits Storing f → Emits Storing (with_db K path f)
  unfolding with_db
  with_db-Storing path f h = search emits_rules depth 9

module _ (K : Kernel) (L : CidrLibrary) where
  pick-Storing :
      (path bucket : String) (reserved : List String) (last rounds cur : ℕ)
      → Emits Storing (pick K L path bucket reserved last rounds cur)
  unfolding pick
  pick-Storing path bucket reserved last zero cur = search emits_rules
  pick-Storing path bucket reserved last (suc rounds) cur =
      let rest = pick-Storing path bucket reserved last rounds (L.inc cur) in
      search (emits_rules, consider-Storing) depth 9

  reserve_first-Storing :
      (path bucket : String) (reserved : List String) (range : ℕ × ℕ) (rounds : ℕ)
      → Emits Storing (reserve_first K L path bucket reserved range rounds)
  unfolding reserve_first
  reserve_first-Storing path bucket reserved range rounds =
      search (emits_rules, pick-Storing) depth 9

  allocate_in-Storing :
      (rounds : ℕ) (opts : IpamOptions) (subnet : ℕ × ℕ)
      → Emits Storing (allocate_in K L rounds opts subnet)
  unfolding allocate_in os_mkdir_all
  allocate_in-Storing rounds opts subnet =
      search (emits_rules, with_db-Storing, db_update-Storing, reserve_first-Storing) depth 12

  allocate_parsed-Storing :
      (rounds : ℕ) (opts : IpamOptions) (parsed : Option (ℕ × ℕ))
      → Emits Storing (allocate_parsed K L rounds opts parsed)
  unfolding allocate_parsed
  allocate_parsed-Storing rounds opts none = search emits_rules
  allocate_parsed-Storing rounds opts (some (ip, prefix)) =
      allocate_in-Storing rounds opts (network_of ip prefix, prefix)

  pub allocate_ip-Storing :
      (rounds : ℕ) (opts : IpamOptions) → Emits Storing (allocate_ip K L rounds opts)
  unfolding allocate_ip
  allocate_ip-Storing rounds opts = search (emits_rules, allocate_parsed-Storing) depth 9
