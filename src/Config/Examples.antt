-- ===== src/Config/Examples.antt =====
-- A file's options at work, and the theorem at them.
use nawala_checker.Common.{
  ◌*◌, ◌≡◌, refl, true, false, Option, none, some, List, [], ◌∷◌, Bytes, codes, text_eq,
  if◌then◌else◌, ok, err, ◌↔◌,
}
use nawala_checker.Common.Int.{ℤ, pos, negsuc}
use nawala_checker.Checker.{defaults, default_servers, second}
use nawala_checker.Checker.Settings.{
  Setting, apply_all, with_timeout, with_max_retries, with_cache, with_protocol, with_keep_alive,
  with_cache_ttl, with_concurrency, with_edns0_size, with_servers,
}
use nawala_checker.Config.{
  Config, invalid_timeout, to_options, parsers, collect, parse_timeout, parse_max_retries,
  parse_cache_ttl, parse_disable_cache, parse_concurrency, parse_edns0_size, parse_protocol,
  parse_tls_server_name, parse_tls_skip_verify, parse_keep_alive, parse_servers, duration_of,
}
use nawala_checker.Config.Errors.{Fails, to_options_errors}
use nawala_checker.Config.Exported.{versioned, exported_keep_alive}
use nawala_checker.Config.Effective.{Agrees, effective_config-Agrees, resolve_effective_config}
use nawala_checker.Checker.Create.{new}
use nawala_checker.Config.Options.{configured, to_options_configures}

-- Every text is seven seconds.
abbrev seven_seconds : Bytes → Option ℤ
seven_seconds s = some (pos (7 * second))

abbrev file : Config
file = record {
  config_version = [];
  timeout = codes "7s";
  command_timeout = [];
  max_retries = some (negsuc 0);
  cache_ttl = [];
  disable_cache = some true;
  concurrency = none;
  edns0_size = none;
  protocol = codes "tcp";
  tls_server_name = [];
  tls_skip_verify = some false;
  keep_alive_pool_size = some (pos 0);
  servers = none;
}

abbrev options : List (Setting Bytes)
options =
    with_timeout (pos (7 * second))
    ∷ with_max_retries (negsuc 0)
    ∷ with_cache none
    ∷ with_protocol (codes "tcp")
    ∷ with_keep_alive (pos 0)
    ∷ []

options_of_file : to_options seven_seconds file ≡ ok options
unfolding to_options parsers collect parse_timeout parse_max_retries parse_cache_ttl
    parse_disable_cache parse_concurrency parse_edns0_size parse_protocol parse_tls_server_name
    parse_tls_skip_verify parse_keep_alive parse_servers duration_of
options_of_file = refl

to_options_configures_example : apply_all options defaults ≡ configured seven_seconds file defaults
to_options_configures_example =
    to_options_configures seven_seconds file options defaults options_of_file

-- No text is a duration.
abbrev no_duration : Bytes → Option ℤ
no_duration s = none

to_options_errors_example :
    (to_options {X = Bytes} no_duration file ≡ err (invalid_timeout (codes "7s")))
    ↔ Fails no_duration file (invalid_timeout (codes "7s"))
to_options_errors_example = to_options_errors no_duration file (invalid_timeout (codes "7s"))

-- The two defaults are read as they are meant, and every other text is seven seconds.
abbrev durations : Bytes → Option ℤ
durations s =
    if text_eq s (codes "5s")
    then some (pos (5 * second))
    else if text_eq s (codes "5m0s")
    then some (pos (300 * second))
    else some (pos (7 * second))

options_by_durations : to_options durations file ≡ ok options
unfolding to_options parsers collect parse_timeout parse_max_retries parse_cache_ttl
    parse_disable_cache parse_concurrency parse_edns0_size parse_protocol parse_tls_server_name
    parse_tls_skip_verify parse_keep_alive parse_servers duration_of text_eq
options_by_durations = refl

five : durations (codes "5s") ≡ some (pos (5 * second))
unfolding text_eq
five = refl

minutes : durations (codes "5m0s") ≡ some (pos (300 * second))
unfolding text_eq
minutes = refl

effective_config-Agrees_example :
    Agrees durations (resolve_effective_config (some file)) (new options)
    × ((new options).cache ≡ none)
unfolding resolve_effective_config
effective_config-Agrees_example =
    effective_config-Agrees durations file options five minutes options_by_durations

-- The options of the file that is written for the default configuration.
abbrev exported_options : List (Setting Bytes)
exported_options =
    with_timeout (pos (5 * second))
    ∷ with_max_retries (pos 2)
    ∷ with_cache_ttl (pos (300 * second))
    ∷ with_concurrency (pos 100)
    ∷ with_edns0_size 1232
    ∷ with_protocol (codes "udp")
    ∷ with_keep_alive (pos 0)
    ∷ with_servers default_servers
    ∷ []

options_of_export :
    to_options durations (versioned [] (resolve_effective_config none)) ≡ ok exported_options
unfolding to_options parsers collect parse_timeout parse_max_retries parse_cache_ttl
    parse_disable_cache parse_concurrency parse_edns0_size parse_protocol parse_tls_server_name
    parse_tls_skip_verify parse_keep_alive parse_servers duration_of text_eq
    resolve_effective_config
options_of_export = refl

exported_keep_alive_example :
    ((new exported_options).keep_alive ≡ true) × ((new {X = Bytes} []).keep_alive ≡ false)
exported_keep_alive_example =
    exported_keep_alive durations [] none exported_options options_of_export
