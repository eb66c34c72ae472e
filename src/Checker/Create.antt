-- ===== src/Checker/Create.antt =====
-- `New` of src/nawala/checker.go: the defaults, the options in order, then the cache, the DNS client
-- and the connection pools.
pub mod Asked
pub mod Kept
pub mod PoolTable
pub mod Ready
mod Examples
use nawala_checker.Common.{
  ℕ, ◌≡◌, Bool, true, false, not, ◌&&◌, ◌||◌, Option, none, some, List, [], ◌∷◌, ◌++◌,
  if◌then◌else◌, Bytes, codes, text_eq,
}
use nawala_checker.Common.Int.{ℤ, pos, pos_part, min_ℤ}
use nawala_checker.Types.{DnsServer}
use nawala_checker.Network.{Client, TlsConfig}
use nawala_checker.ConnPool.{ConnPool, new_conn_pool}
use nawala_checker.Cache.{Cache, memory, new_memory_cache}
use nawala_checker.Checker.{Checker, Pools, find_pool, defaults}
use nawala_checker.Checker.Settings.{Setting, apply_all, is_positive}

-- The loop over the servers: one pool for each address.
unfoldable pub add_pools : Option Client → ℕ → List DnsServer → Pools → Pools
add_pools client size [] pools = pools
add_pools client size (s ∷ ss) pools = add_pools client size ss (elim (find_pool s.address pools) [
  | none ↦ pools ++ (s.address, new_conn_pool client s.address size) ∷ []
  | some p ↦ pools
])

module _ {X : Type 0} where
  unfoldable pub with_default_cache : Checker X → Checker X
  with_default_cache c =
      if c.cache_set then c else record c { cache = some (memory (new_memory_cache c.cache_ttl)) }

  -- The client that `New` builds, by the protocol.
  unfoldable pub default_client : Checker X → Client
  default_client c =
      if text_eq c.dns_protocol (codes "tcp-tls")
      then record {
        timeout = c.timeout;
        net = codes "tcp-tls";
        tls = some (record { server_name = c.tls_server_name; skip_verify = c.tls_skip_verify });
      }
      else if text_eq c.dns_protocol (codes "tcp")
      then record { timeout = c.timeout; net = codes "tcp"; tls = none }
      else record { timeout = c.timeout; net = codes "udp"; tls = none }

  unfoldable pub with_default_client : Checker X → Checker X
  unfolding default_client
  with_default_client c = elim c.dns_client [
    | none ↦ record c { dns_client = some (default_client c) }
    | some client ↦ c
  ]

  -- Keep-alive is asked for, and the transport has connections.
  unfoldable pub is_pooled : Checker X → Bool
  is_pooled c =
      c.keep_alive
      && (text_eq c.dns_protocol (codes "tcp") || text_eq c.dns_protocol (codes "tcp-tls"))

  unfoldable pub pool_capacity : Checker X → ℤ
  pool_capacity c = if is_positive c.pool_size then c.pool_size else min_ℤ c.concurrency (pos 10)

  unfoldable pub with_pools : Checker X → Checker X
  unfolding is_pooled pool_capacity
  with_pools c =
      if is_pooled c
      then record c {
        conn_pools = add_pools c.dns_client (pos_part (pool_capacity c)) c.servers [];
      }
      else c

  unfoldable pub new : List (Setting X) → Checker X
  unfolding with_default_cache with_default_client with_pools
  new settings = with_pools (with_default_client (with_default_cache (apply_all settings defaults)))
