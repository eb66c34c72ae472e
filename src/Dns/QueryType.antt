-- ===== src/Dns/QueryType.antt =====
-- The text of a query type.
use nawala_checker.Common.{◌≡◌, ap, ◌∙◌, sym, true, Bytes, map}
use nawala_checker.Strings.{Unicode, is_ascii, lower_byte, upper_byte}
use nawala_checker.Strings.Case.{
  to_upper_ascii, trim_space_ascii, trim_ascii, trim_ascii_idem, is_ascii-trim_ascii,
  is_ascii-map_lower, trim_ascii-map_lower, map-upper_byte-lower_byte,
}
use nawala_checker.Dns.{type_code, parse_query_type}

module _ (u : Unicode) (s : Bytes) (h : is_ascii s ≡ true) where
  pub parse_query_type_ascii : parse_query_type u s ≡ type_code (map upper_byte (trim_ascii s))
  unfolding parse_query_type
  parse_query_type_ascii =
      rw (trim_space_ascii u s h, to_upper_ascii u (trim_ascii s) (is_ascii-trim_ascii s h))

-- An ASCII query type may be written in either case and with space around it: lower-casing or
-- trimming the text changes nothing.
pub parse_query_type_insensitive :
    (u : Unicode) (s : Bytes)
    → is_ascii s ≡ true
    → (parse_query_type u (map lower_byte s) ≡ parse_query_type u s)
      × (parse_query_type u (trim_ascii s) ≡ parse_query_type u s)
parse_query_type_insensitive u s h = (
  parse_query_type_ascii u (map lower_byte s) (is_ascii-map_lower s ∙ h)
      ∙ ap (λ x. type_code (map upper_byte x)) (trim_ascii-map_lower s)
      ∙ ap type_code (map-upper_byte-lower_byte (trim_ascii s))
      ∙ sym (parse_query_type_ascii u s h),
  parse_query_type_ascii u (trim_ascii s) (is_ascii-trim_ascii s h)
      ∙ ap (λ x. type_code (map upper_byte x)) (trim_ascii_idem s)
      ∙ sym (parse_query_type_ascii u s h),
)
