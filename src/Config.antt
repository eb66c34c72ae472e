-- ===== src/Config.antt =====
-- internal/cli/config.go: the options that a configuration file gives. What the file decodes to is a
-- `Config`; Load has the reading of the file. `parse_duration` is `time.ParseDuration`, which says
-- whether a text is a duration and which.
pub mod Options
pub mod Errors
pub mod Effective
pub mod Exported
pub mod Load
mod Examples
use nawala_checker.Common.{
  ℕ, Bool, true, false, Option, none, some, List, [], ◌∷◌, if◌then◌else◌, Bytes, Outcome, ok, err,
  is_empty,
}
use nawala_checker.Common.Int.{ℤ, pos}
use nawala_checker.Types.{DnsServer}
use nawala_checker.Checker.Settings.{
  Setting, with_timeout, with_max_retries, with_cache_ttl, with_cache, with_concurrency,
  with_edns0_size, with_protocol, with_tls_server_name, with_tls_skip_verify, with_keep_alive,
  with_servers,
}

-- An empty text, a nil pointer or a nil slice is a field that the file leaves out.
pub record Config : Type 0 where
  -- of the file's envelope
  pub config_version : Bytes
  pub timeout : Bytes
  pub command_timeout : Bytes
  pub max_retries : Option ℤ
  pub cache_ttl : Bytes
  pub disable_cache : Option Bool
  pub concurrency : Option ℤ
  pub edns0_size : Option ℕ
  pub protocol : Bytes
  pub tls_server_name : Bytes
  pub tls_skip_verify : Option Bool
  pub keep_alive_pool_size : Option ℤ
  pub servers : Option (List DnsServer)

pub data ConfigError : Type 0 where
  invalid_timeout invalid_cache_ttl invalid_command_timeout : Bytes → ConfigError

-- An option, or none if the file leaves the field out.
abbrev pub Parsed : Type 0 → Type 0
Parsed X = Outcome ConfigError (Option (Setting X))

-- `if ptr == nil { return nil, nil }`
abbrev given : {X A : Type 0} → (A → Setting X) → Option A → Parsed X
given f none = ok none
given f (some a) = ok (some (f a))

-- `if s == "" { return nil, nil }`
abbrev written : {X : Type 0} → (Bytes → Setting X) → Bytes → Parsed X
written f s = if is_empty s then ok none else ok (some (f s))

-- `if ptr != nil && *ptr { … }`
abbrev wanted : {X : Type 0} → Setting X → Option Bool → Parsed X
wanted o none = ok none
wanted o (some b) = if b then ok (some o) else ok none

duration_of : {X : Type 0} → (ℤ → Setting X) → ConfigError → Option ℤ → Parsed X
duration_of f e none = err e
duration_of f e (some d) = ok (some (f d))

module _ {X : Type 0} where
  pub parse_timeout : (Bytes → Option ℤ) → Config → Parsed X
  unfolding duration_of
  parse_timeout parse_duration c =
      if is_empty c.timeout
      then ok none
      else duration_of with_timeout (invalid_timeout c.timeout) (parse_duration c.timeout)

  pub parse_max_retries : Config → Parsed X
  parse_max_retries c = given with_max_retries c.max_retries

  pub parse_disable_cache : Config → Parsed X
  parse_disable_cache c = wanted (with_cache none) c.disable_cache

  pub parse_cache_ttl : (Bytes → Option ℤ) → Config → Parsed X
  unfolding duration_of
  parse_cache_ttl parse_duration c =
      if is_empty c.cache_ttl
      then ok none
      else duration_of with_cache_ttl (invalid_cache_ttl c.cache_ttl) (parse_duration c.cache_ttl)

  pub parse_concurrency : Config → Parsed X
  parse_concurrency c = given with_concurrency c.concurrency

  pub parse_edns0_size : Config → Parsed X
  parse_edns0_size c = given with_edns0_size c.edns0_size

  pub parse_protocol : Config → Parsed X
  parse_protocol c = written with_protocol c.protocol

  pub parse_tls_server_name : Config → Parsed X
  parse_tls_server_name c = written with_tls_server_name c.tls_server_name

  pub parse_tls_skip_verify : Config → Parsed X
  parse_tls_skip_verify c = wanted with_tls_skip_verify c.tls_skip_verify

  pub parse_keep_alive : Config → Parsed X
  parse_keep_alive c = given with_keep_alive c.keep_alive_pool_size

  pub parse_servers : Config → Parsed X
  parse_servers c = given with_servers c.servers

  -- The option before the options of the rest.
  abbrev after :
      Option (Setting X)
      → Outcome ConfigError (List (Setting X))
      → Outcome ConfigError (List (Setting X))
  after o (err e) = err e
  after none (ok os) = ok os
  after (some o) (ok os) = ok (o ∷ os)

  -- The loop over the parsers; the first error ends it.
  pub collect : List (Parsed X) → Outcome ConfigError (List (Setting X))
  collect [] = ok []
  collect (err e ∷ ps) = err e
  collect (ok o ∷ ps) = after o (collect ps)

  pub parsers : (Bytes → Option ℤ) → Config → List (Parsed X)
  unfolding parse_timeout parse_max_retries parse_cache_ttl parse_disable_cache parse_concurrency
      parse_edns0_size parse_protocol parse_tls_server_name parse_tls_skip_verify parse_keep_alive
      parse_servers
  parsers parse_duration c =
      parse_timeout parse_duration c
      ∷ parse_max_retries c
      ∷ parse_cache_ttl parse_duration c
      ∷ parse_disable_cache c
      ∷ parse_concurrency c
      ∷ parse_edns0_size c
      ∷ parse_protocol c
      ∷ parse_tls_server_name c
      ∷ parse_tls_skip_verify c
      ∷ parse_keep_alive c
      ∷ parse_servers c
      ∷ []

  pub to_options : (Bytes → Option ℤ) → Config → Outcome ConfigError (List (Setting X))
  unfolding parsers collect
  to_options parse_duration c = collect (parsers parse_duration c)

abbrev command_timeout_of : Bytes → Option ℤ → Outcome ConfigError ℤ
command_timeout_of s none = err (invalid_command_timeout s)
command_timeout_of s (some d) = ok d

pub parse_command_timeout : (Bytes → Option ℤ) → Config → Outcome ConfigError ℤ
parse_command_timeout parse_duration c =
    if is_empty c.command_timeout
    then ok (pos 0)
    else command_timeout_of c.command_timeout (parse_duration c.command_timeout)
