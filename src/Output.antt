-- ===== src/Output.antt =====
-- internal/cli/output.go: how results are written. The texts and constants that the formats share.
pub mod Text
pub mod Xlsx
pub mod Writer
mod Examples
use nawala_checker.Common.{
  ℕ, Bool, true, false, Option, none, some, List, [], ◌∷◌, ◌++◌, ◌+◌, ◌-◌, Bytes, codes,
  if◌then◌else◌, ltb,
}
use nawala_checker.Common.Int.{ℤ, pos, negsuc}
use nawala_checker.Strings.Decimal.{decimal}
use nawala_checker.Types.{Error, Result, ServerStatus}

-- `nawala.Version`
abbrev pub version : Bytes
version = codes "0.7.1"

pub data Format : Type 0 where
  format_text format_json format_html format_xlsx : Format

-- `%d` of a signed number.
unfoldable pub signed_decimal : ℤ → Bytes
signed_decimal (pos n) = decimal n
signed_decimal (negsuc n) = b'-' ∷ decimal (n + 1)

abbrev pub label_of : (Error → Bytes) → Option Error → Bool → Bytes
label_of error_text (some e) blocked = codes "error: " ++ error_text e
label_of error_text none true = codes "BLOCKED"
label_of error_text none false = codes "NOT BLOCKED"

-- The status of a result as a text; `error_text` is the method `Error` of an error.
abbrev pub result_label : (Error → Bytes) → Result → Bytes
result_label error_text r = label_of error_text r.error r.blocked

abbrev pub online_label : Bool → Bytes
online_label true = codes "ONLINE"
online_label false = codes "OFFLINE"

-- `if n > max { max = n }`
abbrev pub grow : ℕ → ℕ → ℕ
grow max n = if ltb max n then n else max
