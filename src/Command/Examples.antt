-- ===== src/Command/Examples.antt =====
-- Commands at work, and the theorems at them.
use nawala_checker.Common.{
  ℕ, ◌+◌, ◌≡◌, refl, true, none, some, List, [], ◌∷◌, ◌++◌, Bytes, codes, ok, err, text_eq,
}
use nawala_checker.Strings.{
  Unicode, to_lower, trim_space, trim_left, trim_right, is_space, lower_byte, has_prefix, contains,
}
use nawala_checker.Output.{format_json}
use nawala_checker.Command.Flags.{resolve_format, only_one_format}
use nawala_checker.Command.Domains.{
  Sources, stream_domains, spelling, to_ascii_domain, offer, add_domain, add_line, each,
}
use nawala_checker.Command.Domains.Distinct.{IsStream, stream_domains-IsStream}
use nawala_checker.Command.Domains.Firsts.{of_args, of_lines, Ended, stream_domains-firsts}

one_json : resolve_format (codes "json" ∷ []) ≡ ok format_json
unfolding resolve_format text_eq contains has_prefix
one_json = refl

two_formats : resolve_format (codes "json" ∷ codes "html" ∷ []) ≡ err only_one_format
unfolding resolve_format
two_formats = refl

abbrev identity : Unicode
identity = record { lower = λ s. s; upper = λ s. s; trim = λ s. s }

abbrev lines : List Bytes
lines = codes "# list" ∷ codes "" ∷ codes " B.com" ∷ codes "a.com" ∷ codes "c.com" ∷ []

-- The state counts the domains taken.
abbrev sources : Sources ℕ
sources = record {
  ctx_err = λ w. none;
  send = λ d w. (true, w + 1);
  to_ascii = λ d. some d;
  open_lines = λ path w. (ok (lines, none), w);
}

abbrev arguments : List Bytes
arguments = codes "A.com" ∷ codes "b.com " ∷ codes "a.com" ∷ []

streamed :
    (stream_domains sources identity arguments (codes "list.txt") 0).1.taken
    ≡ codes "a.com" ∷ codes "b.com" ∷ codes "c.com" ∷ []
unfolding stream_domains spelling to_ascii_domain offer add_domain add_line each to_lower trim_space
    trim_left trim_right is_space lower_byte has_prefix text_eq
streamed = refl

stream_domains-IsStream_example :
    IsStream sources identity (stream_domains sources identity arguments (codes "list.txt") 0)
stream_domains-IsStream_example =
    stream_domains-IsStream sources identity arguments (codes "list.txt") 0

stream_domains-firsts_example :
    Ended sources identity
      (of_args sources identity arguments ++ of_lines sources identity lines)
      (stream_domains sources identity arguments (codes "list.txt") 0)
stream_domains-firsts_example =
    stream_domains-firsts sources identity (λ w. refl) (λ d w. refl) arguments lines
      (codes "list.txt") 0 (λ w. (w, refl))
