-- ===== src/Domain/Examples.antt =====
-- Runs of the validation, and the theorems at concrete names.
use nawala_checker.Common.{◌≤◌, ◌≡◌, ◌↔◌, refl, true, false, map, codes, text_eq, length, All}
use nawala_checker.Domain.{
  is_valid_domain, is_valid_name, labels_valid, is_valid_label, is_valid_tld, is_punycode,
  normalize_domain,
}
use nawala_checker.Domain.Valid.{IsDomainName, is_valid_domain_iff}
use nawala_checker.Domain.Normal.{IsNameByte, valid_bytes, normalize_domain_stable}
use nawala_checker.Strings.{
  Unicode, lower_byte, is_space, to_lower, trim_space, trim_left, trim_right, split,
  trim_suffix_byte,
}

abbrev identity : Unicode
identity = record { lower = λ s. s; upper = λ s. s; trim = λ s. s }

program : Unit {0}
unfolding is_valid_domain is_valid_name labels_valid is_valid_label is_valid_tld is_punycode
    normalize_domain lower_byte is_space to_lower trim_space trim_left trim_right split
    trim_suffix_byte text_eq
program = tt

accepts_amp : is_valid_domain (codes "a_b.cdn.ampproject.org.") ≡ true
unfolding program
accepts_amp = refl

accepts_punycode : is_valid_domain (codes "example.XN--p1ai") ≡ true
unfolding program
accepts_punycode = refl

refuses_hyphen : is_valid_domain (codes "-a.com") ≡ false
unfolding program
refuses_hyphen = refl

refuses_single : is_valid_domain (codes "localhost") ≡ false
unfolding program
refuses_single = refl

normalizes : normalize_domain identity (codes "  Google.COM ") ≡ codes "google.com"
unfolding program
normalizes = refl

is_valid_domain_iff_example :
    (is_valid_domain (codes "a.com") ≡ true) ↔ IsDomainName (codes "a.com")
is_valid_domain_iff_example = is_valid_domain_iff (codes "a.com")

valid_bytes_example : All IsNameByte (codes "a-b.com") × (length (codes "a-b.com") ≤ 256)
unfolding program
valid_bytes_example = valid_bytes (codes "a-b.com") refl

normalize_domain_stable_example :
    (normalize_domain identity (normalize_domain identity (codes " A.Com"))
      ≡ normalize_domain identity (codes " A.Com"))
    × (normalize_domain identity (map lower_byte (codes " A.Com"))
        ≡ normalize_domain identity (codes " A.Com"))
normalize_domain_stable_example = normalize_domain_stable identity (codes " A.Com") refl
