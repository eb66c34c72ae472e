-- ===== src/Config/Exported.antt =====
-- The file that `runConfig` of internal/cli/config_cmd.go writes, as `loadConfig` decodes it.
use nawala_checker.Common.{
  ◌≡◌, refl, ap, ◌∙◌, true, false, Option, none, some, List, [], ◌∷◌, Bytes, codes, ok,
}
use nawala_checker.Common.Int.{ℤ}
use nawala_checker.Checker.{defaults}
use nawala_checker.Checker.Settings.{Setting, apply_all}
use nawala_checker.Checker.Create.{new}
use nawala_checker.Checker.Create.Kept.{new-Kept}
use nawala_checker.Config.{Config, to_options}
use nawala_checker.Config.Options.{to_options_configures}
use nawala_checker.Config.Effective.{EffectiveConfig, resolve_effective_config, unless_empty}

-- The fields that a decoder finds in an exported configuration: all of them, under the same keys.
abbrev pub config_of : EffectiveConfig → Config
config_of e = record {
  config_version = [];
  timeout = e.timeout;
  command_timeout = e.command_timeout;
  max_retries = some e.max_retries;
  cache_ttl = e.cache_ttl;
  disable_cache = some e.disable_cache;
  concurrency = some e.concurrency;
  edns0_size = some e.edns0_size;
  protocol = e.protocol;
  tls_server_name = e.tls_server_name;
  tls_skip_verify = some e.tls_skip_verify;
  keep_alive_pool_size = some e.keep_alive_pool_size;
  servers = some e.servers;
}

unless_twice : (s d : Bytes) → unless_empty (unless_empty s d) d ≡ unless_empty s d
unless_twice [] [] = refl
unless_twice [] (c ∷ d) = refl
unless_twice (c ∷ s) d = refl

-- The configuration with the version of its envelope.
abbrev pub versioned : Bytes → EffectiveConfig → Config
versioned v e = record (config_of e) { config_version = v }

pub effective_again :
    (v : Bytes) (cfg : Option Config)
    → resolve_effective_config (some (versioned v (resolve_effective_config cfg)))
      ≡ resolve_effective_config cfg
unfolding resolve_effective_config
effective_again v none = refl
effective_again v (some c) = cc (
  unless_twice c.timeout (codes "5s"),
  unless_twice c.command_timeout (codes "30s"),
  unless_twice c.cache_ttl (codes "5m0s"),
  unless_twice c.protocol (codes "udp"),
  unless_twice c.tls_server_name [],
)

-- Of the file that `nawala config` writes, whatever the configuration was: the options that it gives,
-- where it gives any, turn keep-alive on. So the file that is written for the default configuration
-- does not give the default checker, which has keep-alive off.
pub exported_keep_alive :
    {X : Type 0} (d : Bytes → Option ℤ) (v : Bytes) (cfg : Option Config) (opts : List (Setting X))
    → to_options d (versioned v (resolve_effective_config cfg)) ≡ ok opts
    → ((new opts).keep_alive ≡ true) × ((new {X = X} []).keep_alive ≡ false)
unfolding apply_all
exported_keep_alive {X} d v cfg opts h =
    let exported = versioned v (resolve_effective_config cfg) in
    let made = to_options_configures d exported opts defaults h in
    ((new-Kept opts).keep_alive ∙ ap (λ c. c.keep_alive) made, (new-Kept {X = X} []).keep_alive)
