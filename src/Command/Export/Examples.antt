-- ===== src/Command/Export/Examples.antt =====
-- An export of the default configuration at work, and the theorems at it.
use nawala_checker.Common.{
  ◌≡◌, refl, Bool, true, none, some, [], ◌++◌, Bytes, codes, ok, err, length,
}
use nawala_checker.Strings.{Unicode, to_lower, lower_byte}
use nawala_checker.Config.{Config}
use nawala_checker.Config.Load.{Files, load_config, path_ext}
use nawala_checker.Config.Effective.{EffectiveConfig, resolve_effective_config}
use nawala_checker.Config.Exported.{config_of}
use nawala_checker.Output.{version}
use nawala_checker.Output.Xlsx.{Styles}
use nawala_checker.Output.Writer.{Encoders, JsonResult, JsonStatus}
use nawala_checker.Command.Export.{Marshallers, Exported, run_config, source_config}
use nawala_checker.Command.Export.RoundTrip.{exported_text, IsSaved, config_round_trip}

abbrev styles : Styles
styles = record { green = 1; red = 2; orange = 3; plain = 4; header = 5; title = 6 }

abbrev encoders : Encoders
encoders = record {
  error_text = λ e. codes "failed";
  rune_count = length;
  json_result = λ (r : JsonResult). r.domain;
  json_status = λ (s : JsonStatus). s.server;
  html_results = λ v rs. ([], true);
  html_statuses = λ v ss. ([], true);
  styles = styles;
  save_as = λ path edits. true;
  write_to = λ edits. ([], true);
}

abbrev identity : Unicode
identity = record { lower = λ s. s; upper = λ s. s; trim = λ s. s }

-- An encoder that writes the version and the protocol alone.
abbrev marshallers : Marshallers
marshallers = record { to_json = λ v e. v ++ e.protocol; to_yaml = λ v e. v ++ e.protocol }

abbrev everywhere : Bytes → Bool
everywhere path = true

abbrev no_files : Files
no_files = record {
  read_file = λ path. err (codes "no such file");
  from_json = λ text. err [];
  from_yaml = λ text. err [];
}

abbrev default_effective : EffectiveConfig
default_effective = resolve_effective_config none

abbrev file_name : Bytes
file_name = codes "nawala.JSON"

abbrev exported : Exported
exported = run_config no_files identity marshallers encoders everywhere true [] file_name

-- The file that was written, which decodes to the default.
abbrev one_file : Files
one_file = record {
  read_file = λ path. ok (exported_text exported);
  from_json = λ text. ok (version, config_of default_effective);
  from_yaml = λ text. err [];
}

default_source : source_config no_files identity marshallers encoders everywhere [] ≡ ok none
unfolding source_config
default_source = refl

json_extension : to_lower identity (path_ext file_name) ≡ codes ".json"
unfolding to_lower path_ext lower_byte
json_extension = refl

config_round_trip_example :
    IsSaved exported
    × (c : Config) × (load_config one_file identity file_name ≡ ok c)
    × (c.config_version ≡ version)
    × (resolve_effective_config (some c) ≡ default_effective)
config_round_trip_example =
    config_round_trip no_files identity marshallers encoders everywhere one_file true [] file_name
      none default_source refl refl json_extension refl refl
