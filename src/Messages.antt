-- ===== src/Messages.antt =====
-- messages.rs: the data that clients and daemons exchange. `PublicKey` is iroh's, a parameter. A
-- `HashMap` is the list of its pairs.
use native.Mathlib.Decide.{ℕ_discrete}
use vpfs_iroh.Base.{ℕ, Str, Bool, Option, List, Result, Eq}

pub record Location : Type 0 where
  pub node_name : Str
  pub uri : Str

pub record DirectoryEntry : Type 0 where
  pub location : Location
  pub name : Str
  pub is_dir : Bool

pub record CacheEntry : Type 0 where
  pub uri : Str

pub data VpfsError : Type 0 where
  only_in_cache : Location → VpfsError
  cache_needed_for_traversal : DirectoryEntry → VpfsError
  not_modified : VpfsError
  does_not_exist : VpfsError
  not_found : VpfsError
  not_accessible : VpfsError
  not_a_directory : VpfsError
  already_exists : DirectoryEntry → VpfsError
  other : Str → VpfsError

-- A `SystemTime` is a number of ticks.
abbrev pub SystemTime : Type 0
SystemTime = ℕ

pub data DaemonRequest : Type 0 where
  place : DaemonRequest
  read : Str → Option SystemTime → DaemonRequest
  write : Str → DaemonRequest
  remove : Str → DaemonRequest
  append_directory_entry : Str → DirectoryEntry → DaemonRequest
  address_for : Str → DaemonRequest

pub data ClientRequest : Type 0 where
  find : Str → ClientRequest
  place : Str → Str → ClientRequest
  mkdir : Str → Str → ClientRequest
  read : Location → ClientRequest
  write : Location → ℕ → ClientRequest

pub data ClientResponse : Type 0 where
  find : Result DirectoryEntry VpfsError → ClientResponse
  place : Result Location VpfsError → ClientResponse
  mkdir : Result Location VpfsError → ClientResponse
  read : Result ℕ VpfsError → ClientResponse
  write : Result ℕ VpfsError → ClientResponse

module _ (PublicKey : Type 0) where
  pub record VpfsNode : Type 0 where
    pub name : Str
    pub endpoint_id : PublicKey

  pub data Hello : Type 0 where
    client_hello : Hello
    daemon_hello : Hello
    root_hello : VpfsNode → Hello

  pub data HelloResponse : Type 0 where
    client_hello : Str → HelloResponse
    daemon_hello : HelloResponse
    root_hello : VpfsNode → List (Str × PublicKey) → HelloResponse

  pub data DaemonResponse : Type 0 where
    place : Str → DaemonResponse
    read : Result (Unit {0}) VpfsError → DaemonResponse
    write : Result ℕ VpfsError → DaemonResponse
    remove : Result (Unit {0}) VpfsError → DaemonResponse
    append_directory_entry : Result (Unit {0}) VpfsError → DaemonResponse
    address_for : Option PublicKey → DaemonResponse

Location-discrete : Discrete Location
Location-discrete = hlevel ℕ_discrete

-- The derived `PartialEq` of `Location`.
instance unfoldable pub location_eq : Eq Location
unfolding Location-discrete ℕ_discrete
location_eq = record { dec = Location-discrete }
