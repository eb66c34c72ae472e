-- ===== src/Command/Export.antt =====
-- internal/cli/config_cmd.go: `runConfig`, which writes the effective configuration out.
pub mod RoundTrip
mod Examples
use nawala_checker.Common.{
  Bool, true, false, Option, none, some, List, [], ◌∷◌, ◌++◌, if◌then◌else◌, Bytes, codes, Outcome,
  ok, err, is_empty,
}
use nawala_checker.Strings.{Unicode}
use nawala_checker.Config.{Config}
use nawala_checker.Config.Load.{Files, LoadError, load_config}
use nawala_checker.Config.Effective.{EffectiveConfig, resolve_effective_config}
use nawala_checker.Output.{version, format_text}
use nawala_checker.Output.Writer.{Encoders, Writer, new_writer, emit}
use nawala_checker.Output.Writer.Close.{Closed, close}

-- `json.MarshalIndent` and `yaml.Marshal` at the envelope: a version and a configuration.
pub record Marshallers : Type 0 where
  pub to_json : Bytes → EffectiveConfig → Bytes
  pub to_yaml : Bytes → EffectiveConfig → Bytes

-- How the command ends: an error, or the bytes on standard output, or the closed writer of a file.
pub data Exported : Type 0 where
  not_exported : LoadError → Exported
  not_created : Exported
  printed : Bytes → Exported
  saved : Closed → Exported

abbrev pub config_if_any : Outcome LoadError Config → Outcome LoadError (Option Config)
config_if_any (ok c) = ok (some c)
config_if_any (err e) = err e

module _ (files : Files) (u : Unicode) (m : Marshallers) (enc : Encoders)
    (can_create : Bytes → Bool) where
  unfoldable pub source_config : Bytes → Outcome LoadError (Option Config)
  source_config path = if is_empty path then ok none else config_if_any (load_config files u path)

  unfoldable pub serialise : Bool → EffectiveConfig → Bytes
  serialise true eff = m.to_json version eff ++ codes "\n"
  serialise false eff = m.to_yaml version eff

  unfoldable pub save : Bytes → Option Writer → Exported
  save text none = not_created
  save text (some w) = saved (close enc (emit text w))

  unfoldable pub export_text : Bytes → Bytes → Exported
  unfolding save
  export_text output text =
      if is_empty output then printed text else save text (new_writer can_create output format_text)

  unfoldable pub export_config : Bool → Bytes → Outcome LoadError (Option Config) → Exported
  unfolding export_text serialise
  export_config json_mode output (err e) = not_exported e
  export_config json_mode output (ok cfg) =
      export_text output (serialise json_mode (resolve_effective_config cfg))

  unfoldable pub run_config : Bool → Bytes → Bytes → Exported
  unfolding export_config source_config
  run_config json_mode path output = export_config json_mode output (source_config path)
