-- ===== src/Command/Export/RoundTrip.antt =====
-- An exported configuration, loaded again.
use nawala_checker.Common.{
  ◌≡◌, refl, sym, ap, ◌∙◌, subst, Bool, true, false, Option, none, some, [], ◌∷◌, Bytes, ok,
  is_empty,
}
use nawala_checker.Strings.{Unicode, to_lower}
use nawala_checker.Config.{Config}
use nawala_checker.Config.Load.{Files, load_config, path_ext, IsExtension, decoder, load_config_lem}
use nawala_checker.Config.Effective.{resolve_effective_config}
use nawala_checker.Config.Exported.{config_of, versioned, effective_again}
use nawala_checker.Output.{version}
use nawala_checker.Output.Writer.{Encoders, Writer, new_writer, emit, flush_writer}
use nawala_checker.Output.Writer.Close.{close}
use nawala_checker.Output.Writer.Json.{passed_of, flushed_end}
use nawala_checker.Command.Export.{
  Marshallers, Exported, not_exported, not_created, printed, saved, source_config, serialise, save,
  export_text, export_config, run_config,
}

-- The bytes that the command leaves on standard output, or in the file.
abbrev pub exported_text : Exported → Bytes
exported_text (printed text) = text
exported_text (saved (some (good, w))) = passed_of w.buffer
exported_text (saved none) = []
exported_text (not_exported e) = []
exported_text not_created = []

-- The command has no error, and closes the file that it wrote.
abbrev pub IsSaved : Exported → Type 0
IsSaved x = (w : Writer) × (x ≡ saved (some (true, w)))

module _ (files : Files) (u : Unicode) (m : Marshallers) (enc : Encoders)
    (can_create : Bytes → Bool) where
  write_out_lem :
      (path text : Bytes)
      → is_empty path ≡ false
      → can_create path ≡ true
      → IsSaved (export_text files u m enc can_create path text)
        × (exported_text (export_text files u m enc can_create path text) ≡ text)
  unfolding export_text save new_writer emit flush_writer close
  write_out_lem [] text h c = absurd cc
  write_out_lem (b ∷ path) text h c = rw c ((_, refl), flushed_end [] text)

  -- A configuration, of a file or the default, that `nawala config` writes to a file with the
  -- extension of its format: the command succeeds, and where the file then holds what was written, and
  -- the decoder gives back what the encoder was given, `loadConfig` reads it without an error, with
  -- the version of the tool; and the effective configuration of what it read is the one that was
  -- written.
  pub config_round_trip :
      (after : Files) (json : Bool) (path output : Bytes) (cfg : Option Config)
      → source_config files u m enc can_create path ≡ ok cfg
      → is_empty output ≡ false
      → can_create output ≡ true
      → IsExtension json (to_lower u (path_ext output))
      → decoder json after (serialise files u m enc can_create json (resolve_effective_config cfg))
        ≡ ok (version, config_of (resolve_effective_config cfg))
      → after.read_file output
        ≡ ok (exported_text (run_config files u m enc can_create json path output))
      → IsSaved (run_config files u m enc can_create json path output)
        × (c : Config) × (load_config after u output ≡ ok c)
        × (c.config_version ≡ version)
        × (resolve_effective_config (some c) ≡ resolve_effective_config cfg)
  unfolding run_config export_config
  config_round_trip after json path output cfg source named created ext decodes read =
      let eff = resolve_effective_config cfg in
      let text = serialise files u m enc can_create json eff in
      let (is_saved, wrote) = write_out_lem output text named created in
      let ran : run_config files u m enc can_create json path output
          ≡ export_text files u m enc can_create output text =
        ap (export_config files u m enc can_create json output) source in
      (
        subst IsSaved (sym ran) is_saved,
        versioned version eff,
        load_config_lem after u json output text version (config_of eff)
            (read ∙ ap (λ x. ok (exported_text x)) ran ∙ ap ok wrote) ext decodes,
        refl,
        effective_again version cfg,
      )
