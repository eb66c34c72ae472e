-- ===== src/Config/Load.antt =====
-- internal/cli/config.go: `loadConfig`. Reading a file and decoding its bytes are the parameter `Files`.
use nawala_checker.Common.{
  ◌≡◌, refl, ap, ◌∙◌, ◌⊎◌, inl, inr, Bool, true, false, ◌||◌, ◌==◌, [], ◌∷◌, if◌then◌else◌, Bytes,
  codes, Outcome, ok, err, text_eq,
}
use nawala_checker.Strings.{Unicode, to_lower}
use nawala_checker.Config.{Config}

-- `os.ReadFile`, and `json.Unmarshal` and `yaml.Unmarshal` at the type of the envelope, which give its
-- version and its configuration. An error is its text.
pub record Files : Type 0 where
  pub read_file : Bytes → Outcome Bytes Bytes
  pub from_json : Bytes → Outcome Bytes (Bytes × Config)
  pub from_yaml : Bytes → Outcome Bytes (Bytes × Config)

pub data LoadError : Type 0 where
  unread bad_json bad_yaml unsupported_format : Bytes → LoadError

-- `filepath.Ext`: from the last dot on, if no slash comes behind it.
abbrev ext_from : Bytes → Bytes → Bytes
ext_from found [] = found
ext_from found (c ∷ cs) =
    if c == b'/'
    then ext_from [] cs
    else if c == b'.'
    then ext_from (c ∷ cs) cs
    else ext_from found cs

unfoldable pub path_ext : Bytes → Bytes
path_ext path = ext_from [] path

-- The version of the envelope goes to the configuration.
decoded : (Bytes → LoadError) → Outcome Bytes (Bytes × Config) → Outcome LoadError Config
decoded bad (err e) = err (bad e)
decoded bad (ok (v, cfg)) = ok (record cfg { config_version = v })

module _ (files : Files) (u : Unicode) where
  by_extension : Bytes → Bytes → Outcome LoadError Config
  unfolding decoded
  by_extension ext text =
      if text_eq ext (codes ".json")
      then decoded bad_json (files.from_json text)
      else if text_eq ext (codes ".yaml") || text_eq ext (codes ".yml")
      then decoded bad_yaml (files.from_yaml text)
      else err (unsupported_format ext)

  contents : Bytes → Outcome Bytes Bytes → Outcome LoadError Config
  unfolding by_extension
  contents path (err e) = err (unread e)
  contents path (ok text) = by_extension (to_lower u (path_ext path)) text

  unfoldable pub load_config : Bytes → Outcome LoadError Config
  unfolding contents
  load_config path = contents path (files.read_file path)

-- The extensions under which a file of JSON, or of YAML, is read.
abbrev pub IsExtension : Bool → Bytes → Type 0
IsExtension true ext = ext ≡ codes ".json"
IsExtension false ext = (ext ≡ codes ".yaml") ⊎ (ext ≡ codes ".yml")

abbrev pub decoder : Bool → Files → Bytes → Outcome Bytes (Bytes × Config)
decoder true files = files.from_json
decoder false files = files.from_yaml

module _ (files : Files) (u : Unicode) where
  by_extension_lem :
      (json : Bool) (ext text : Bytes) (v : Bytes) (c : Config)
      → IsExtension json ext
      → decoder json files text ≡ ok (v, c)
      → by_extension files u ext text ≡ ok (record c { config_version = v })
  unfolding by_extension decoded text_eq
  by_extension_lem true ext text v c h d = rw (h, d) refl
  by_extension_lem false ext text v c (inl h) d = rw (h, d) refl
  by_extension_lem false ext text v c (inr h) d = rw (h, d) refl

  -- A file that can be read, whose extension names its format and whose text decodes, gives the decoded
  -- configuration with the version of the envelope.
  pub load_config_lem :
      (json : Bool) (path text v : Bytes) (c : Config)
      → files.read_file path ≡ ok text
      → IsExtension json (to_lower u (path_ext path))
      → decoder json files text ≡ ok (v, c)
      → load_config files u path ≡ ok (record c { config_version = v })
  unfolding load_config contents
  load_config_lem json path text v c r h d =
      ap (contents files u path) r ∙ by_extension_lem json _ text v c h d
