-- ===== src/Command/Flags.antt =====
-- internal/cli/format.go: the output format. The values of the flag come from the command library.
use nawala_checker.Common.{List, [], ◌∷◌, if◌then◌else◌, Bytes, codes, Outcome, ok, err, text_eq}
use nawala_checker.Strings.{contains}
use nawala_checker.Output.{Format, format_text, format_json, format_html, format_xlsx}

pub data FormatError : Type 0 where
  only_one_format : FormatError
  invalid_format : Bytes → FormatError

-- The switch over the constants.
unfoldable pub format_named : Bytes → Outcome FormatError Format
format_named s =
    if text_eq s (codes "text")
    then ok format_text
    else if text_eq s (codes "json")
    then ok format_json
    else if text_eq s (codes "html")
    then ok format_html
    else if text_eq s (codes "xlsx")
    then ok format_xlsx
    else err (invalid_format s)

one_format : Bytes → Outcome FormatError Format
one_format s = if contains s (codes ",") then err only_one_format else format_named s

unfoldable pub resolve_format : List Bytes → Outcome FormatError Format
unfolding one_format format_named
resolve_format [] = one_format (codes "text")
resolve_format (s ∷ []) = one_format s
resolve_format (s ∷ t ∷ more) = err only_one_format
