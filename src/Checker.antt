-- ===== src/Checker.antt =====
-- src/nawala/checker.go: the checker's state, its defaults, and the operations that need no query.
-- `X` is the state of a custom cache. Each operation takes the checker and returns it changed, in
-- place of the pointer; the lock is held over the whole of each operation that changes servers.
pub mod Settings
pub mod Create
pub mod Probe
pub mod Single
pub mod Batch
pub mod Stream
use nawala_checker.Common.{
  ℕ, suc, ◌*◌, ◌^◌, ◌≡◌, Bool, true, false, Option, none, some, List, [], ◌∷◌, ◌++◌, if◌then◌else◌,
  Bytes, codes, text_eq, any, map,
}
use nawala_checker.Common.Int.{ℤ, pos}
use nawala_checker.Types.{DnsServer}
use nawala_checker.Network.{Network, Client}
use nawala_checker.ConnPool.{ConnPool}
use nawala_checker.ConnPool
use nawala_checker.Cache.{Cache, CacheOps, cache_flush}

-- Durations are in nanoseconds.
abbrev pub second : ℕ
second = 1000000000

abbrev pub cache_key_prefix : Bytes
cache_key_prefix = codes "nawala_checker:"

abbrev pub default_servers : List DnsServer
default_servers =
    record {
      address = codes "180.131.144.144";
      keyword = codes "internetpositif";
      query_type = codes "A";
    }
    ∷ record {
      address = codes "180.131.145.145";
      keyword = codes "internetpositif";
      query_type = codes "A";
    }
    ∷ []

abbrev pub Pools : Type 0
Pools = List (Bytes × ConnPool)

pub record Checker (X : Type 0) : Type 0 where
  pub servers : List DnsServer
  pub timeout : ℤ
  pub max_retries : ℤ
  pub concurrency : ℤ
  pub cache : Option (Cache X)
  pub cache_set : Bool
  pub cache_ttl : ℤ
  pub edns0_size : ℕ
  pub dns_protocol : Bytes
  pub tls_server_name : Bytes
  pub tls_skip_verify : Bool
  pub dns_client : Option Client
  pub digest_hash : Option (Bytes → Bytes)
  pub keep_alive : Bool
  pub pool_size : ℤ
  pub conn_pools : Pools

-- `c.connPools[address]`, nil where there is none.
unfoldable pub find_pool : Bytes → Pools → Option ConnPool
find_pool a [] = none
find_pool a ((b, p) ∷ ps) = if text_eq b a then some p else find_pool a ps

-- The pool behind the pointer has changed.
unfoldable pub write_pool : Bytes → Option ConnPool → Pools → Pools
write_pool a none ps = ps
write_pool a (some p) [] = []
write_pool a (some p) ((b, q) ∷ ps) =
    if text_eq b a then (b, p) ∷ ps else (b, q) ∷ write_pool a (some p) ps

module _ {X : Type 0} where
  -- The checker that `New` hands to the options.
  abbrev pub defaults : Checker X
  defaults = record {
    servers = default_servers;
    timeout = pos (5 * second);
    max_retries = pos 2;
    concurrency = pos 100;
    cache = none;
    cache_set = false;
    cache_ttl = pos (300 * second);
    edns0_size = 1232;
    dns_protocol = codes "udp";
    tls_server_name = [];
    tls_skip_verify = false;
    dns_client = none;
    digest_hash = none;
    keep_alive = false;
    pool_size = pos 0;
    conn_pools = [];
  }

  -- `HasServer`
  unfoldable pub has_server : Bytes → Checker X → Bool
  has_server address c = any (λ s. text_eq s.address address) c.servers

  -- `FlushCache`
  unfoldable pub flush_cache : CacheOps X → Checker X → Checker X
  flush_cache ops c = elim c.cache [
    | none ↦ c
    | some k ↦ record c { cache = some (cache_flush ops k) }
  ]

module _ {W : Type 0} (net : Network W) where
  close_pools : Pools → W → Pools × W
  close_pools [] w = ([], w)
  close_pools ((a, p) ∷ ps) w =
      let (p', w1) = ConnPool.close net p w in
      let (ps', w2) = close_pools ps w1 in ((a, p') ∷ ps', w2)

  -- `Close`. Go visits the pools of the map in any order; here it is that of the list.
  unfoldable pub close : {X : Type 0} → Checker X → W → Checker X × W
  unfolding close_pools
  close c w = let (ps, w') = close_pools c.conn_pools w in (record c { conn_pools = ps }, w')
