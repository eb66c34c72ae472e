-- ===== src/Checker/Settings.antt =====
-- src/nawala/option.go and dead_code.go: the options of `New`, and the changes to the server list of
-- a running checker. The type `Option` of functional options is `Setting` here, one constructor for
-- each exported function; `apply` is the function that it returns.
pub mod Servers
pub mod Dedupe
pub mod Deleted
mod Examples
use nawala_checker.Common.{
  ℕ, ◌≡◌, Bool, true, false, not, ◌&&◌, ◌||◌, Option, none, some, List, [], ◌∷◌, ◌++◌,
  if◌then◌else◌, Bytes, codes, text_eq, any, map, filter, is_empty, ◌==◌,
}
use nawala_checker.Common.Int.{ℤ, pos, negsuc}
use nawala_checker.Types.{DnsServer}
use nawala_checker.Network.{Client}
use nawala_checker.Cache.{Cache}
use nawala_checker.Checker.{Checker}

-- Equality of the struct `serverKey`.
unfoldable pub same_server : DnsServer → DnsServer → Bool
same_server s t =
    text_eq s.address t.address
    && (text_eq s.keyword t.keyword && text_eq s.query_type t.query_type)

-- The loop of `WithServers`, over the keys seen and the servers kept.
unfoldable pub dedupe_from : List DnsServer → List DnsServer → List DnsServer → List DnsServer
dedupe_from seen deduped [] = deduped
dedupe_from seen deduped (s ∷ ss) = elim (any (same_server s) seen) [
  | true ↦ dedupe_from seen deduped ss
  | false ↦ dedupe_from (s ∷ seen) (deduped ++ s ∷ []) ss
]

unfoldable pub dedupe : List DnsServer → List DnsServer
unfolding dedupe_from
dedupe servers = if is_empty servers then servers else dedupe_from [] [] servers

-- One round of `SetServers`, and `WithServer`: in place where the address stands, at the end if not.
unfoldable pub upsert : DnsServer → List DnsServer → List DnsServer
upsert server [] = server ∷ []
upsert server (s ∷ ss) =
    if text_eq s.address server.address then server ∷ ss else s ∷ upsert server ss

unfoldable pub upsert_all : List DnsServer → List DnsServer → List DnsServer
upsert_all [] servers = servers
upsert_all (n ∷ ns) servers = upsert_all ns (upsert n servers)

-- The filter of `DeleteServers`.
unfoldable pub without : List Bytes → List DnsServer → List DnsServer
without addresses = filter (λ s. not (any (text_eq s.address) addresses))

unfoldable pub is_protocol : Bytes → Bool
is_protocol net =
    text_eq net (codes "udp") || (text_eq net (codes "tcp") || text_eq net (codes "tcp-tls"))

module _ {X : Type 0} where
  unfoldable pub set_servers : List DnsServer → Checker X → Checker X
  set_servers new c = if is_empty new then c else record c { servers = upsert_all new c.servers }

  unfoldable pub delete_servers : List Bytes → Checker X → Checker X
  delete_servers addresses c =
      if is_empty addresses then c else record c { servers = without addresses c.servers }

pub data Setting (X : Type 0) : Type 0 where
  with_servers : List DnsServer → Setting X
  with_server : DnsServer → Setting X
  with_timeout with_cache_ttl with_max_retries with_concurrency with_keep_alive : ℤ → Setting X
  with_cache : Option (Cache X) → Setting X
  with_dns_client : Option Client → Setting X
  with_edns0_size : ℕ → Setting X
  with_protocol with_tls_server_name : Bytes → Setting X
  with_tls_skip_verify : Setting X
  with_digests : Option (Bytes → Bytes) → Setting X

-- `if n < 0 { n = defaultRetries }`
unfoldable pub retries_of : ℤ → ℤ
retries_of (pos n) = pos n
retries_of (negsuc n) = pos 2

-- `n > 0`
unfoldable pub is_positive : ℤ → Bool
is_positive (pos n) = not (n == 0)
is_positive (negsuc n) = false

-- The effect of each option.
module _ {X : Type 0} where
  abbrev pub apply_timeout : ℤ → Checker X → Checker X
  apply_timeout d c = record c { timeout = d }

  abbrev pub apply_cache_ttl : ℤ → Checker X → Checker X
  apply_cache_ttl d c = record c { cache_ttl = d }

  abbrev pub apply_cache : Option (Cache X) → Checker X → Checker X
  apply_cache cache c = record c { cache = cache; cache_set = true }

  abbrev pub apply_concurrency : ℤ → Checker X → Checker X
  apply_concurrency n c = if is_positive n then record c { concurrency = n } else c

  abbrev pub apply_keep_alive : ℤ → Checker X → Checker X
  apply_keep_alive n c = record c { keep_alive = true; pool_size = n }

  abbrev pub apply_dns_client : Option Client → Checker X → Checker X
  apply_dns_client none c = c
  apply_dns_client (some client) c = record c { dns_client = some client }

  abbrev pub apply_edns0_size : ℕ → Checker X → Checker X
  apply_edns0_size n c = if n == 0 then c else record c { edns0_size = n }

  abbrev pub apply_tls_server_name : Bytes → Checker X → Checker X
  apply_tls_server_name name c = record c { tls_server_name = name }

  abbrev pub apply_tls_skip_verify : Checker X → Checker X
  apply_tls_skip_verify c = record c { tls_skip_verify = true }

  abbrev pub apply_digests : Option (Bytes → Bytes) → Checker X → Checker X
  apply_digests none c = c
  apply_digests (some hash) c = record c { digest_hash = some hash }

module _ {X : Type 0} where
  unfoldable pub apply : Setting X → Checker X → Checker X
  unfolding retries_of
  apply (with_servers servers) c = record c { servers = dedupe servers }
  apply (with_server server) c = record c { servers = upsert server c.servers }
  apply (with_timeout d) c = apply_timeout d c
  apply (with_cache_ttl d) c = apply_cache_ttl d c
  apply (with_max_retries n) c = record c { max_retries = retries_of n }
  apply (with_concurrency n) c = apply_concurrency n c
  apply (with_keep_alive n) c = apply_keep_alive n c
  apply (with_cache cache) c = apply_cache cache c
  apply (with_dns_client client) c = apply_dns_client client c
  apply (with_edns0_size n) c = apply_edns0_size n c
  apply (with_protocol net) c = if is_protocol net then record c { dns_protocol = net } else c
  apply (with_tls_server_name name) c = apply_tls_server_name name c
  apply with_tls_skip_verify c = apply_tls_skip_verify c
  apply (with_digests hash) c = apply_digests hash c

  unfoldable pub apply_all : List (Setting X) → Checker X → Checker X
  apply_all [] c = c
  apply_all (s ∷ ss) c = apply_all ss (apply s c)
