-- ===== src/Output/Examples.antt =====
-- Output at work, and the theorems at it.
use nawala_checker.Common.{
  ◌≡◌, refl, Bool, true, false, none, some, [], ◌∷◌, ◌++◌, Bytes, codes, length,
}
use nawala_checker.Common.Int.{pos}
use nawala_checker.Types.{Error, Result, ServerStatus, nxdomain}
use nawala_checker.Output.{format_json}
use nawala_checker.Output.Xlsx.{Styles}
use nawala_checker.Output.Writer.{
  Encoders, JsonResult, JsonStatus, Writer, writer_over, new_writer, cancel,
}
use nawala_checker.Output.Writer.Buffered.{fresh_buffer}
use nawala_checker.Output.Writer.Close.{close, json_end}
use nawala_checker.Output.Writer.Json.{passed_of, write_results, document, json_cancelled}

abbrev error_text : Error → Bytes
error_text e = codes "nawala: nxdomain"

abbrev blocked : Result
blocked = record {
  domain = codes "a.com";
  blocked = true;
  server = codes "192.0.2.1";
  error = none;
}

abbrev missing : Result
missing = record {
  domain = codes "nowhere.example";
  blocked = false;
  server = codes "192.0.2.1";
  error = some nxdomain;
}

abbrev up : ServerStatus
up = record { server = codes "192.0.2.1"; online = true; latency_ms = pos 25; error = none }

abbrev styles : Styles
styles = record { green = 1; red = 2; orange = 3; plain = 4; header = 5; title = 6 }

-- An encoder that writes the domain alone.
abbrev encoders : Encoders
encoders = record {
  error_text = error_text;
  rune_count = length;
  json_result = λ (r : JsonResult). r.domain;
  json_status = λ (s : JsonStatus). s.server;
  html_results = λ v rs. ([], true);
  html_statuses = λ v ss. ([], true);
  styles = styles;
  save_as = λ path edits. true;
  write_to = λ edits. ([], true);
}

abbrev everywhere : Bytes → Bool
everywhere path = true

abbrev to_stdout : Writer
to_stdout = writer_over (some fresh_buffer) false format_json []

opened : new_writer everywhere [] format_json ≡ some to_stdout
unfolding new_writer
opened = refl

json_cancelled_example :
    (w' : Writer) × (close encoders (cancel (write_results encoders (blocked ∷ []) to_stdout))
      ≡ some (true, w'))
    × (passed_of w'.buffer ++ json_end ≡ document encoders (blocked ∷ []))
json_cancelled_example = json_cancelled encoders everywhere [] to_stdout blocked [] opened
