-- ===== src/Command/Run/Examples.antt =====
-- A check with JSON output at work, and the theorem at it.
use nawala_checker.Common.{
  ℕ, Bool, true, false, Option, none, some, [], ◌∷◌, Bytes, codes, err, length,
}
use nawala_checker.Common.Int.{ℤ}
use nawala_checker.Types.{Result, internal_panic}
use nawala_checker.Network.Samples.{clear}
use nawala_checker.Cache.{MemoryCache}
use nawala_checker.Checker.{Checker}
use nawala_checker.Strings.{Unicode}
use nawala_checker.Config.Load.{Files}
use nawala_checker.Output.{format_json}
use nawala_checker.Output.Xlsx.{Styles}
use nawala_checker.Output.Writer.{Encoders, JsonResult, JsonStatus, Writer, writer_over}
use nawala_checker.Output.Writer.Buffered.{fresh_buffer}
use nawala_checker.Command.Run.{Delivery, Finished, run_check}

abbrev blocked : Result
blocked = record { domain = codes "a.com"; blocked = true; server = codes "9.9.9.9"; error = none }

abbrev broken : Result
broken = record {
  domain = codes "b.com";
  blocked = false;
  server = [];
  error = some (internal_panic []);
}

abbrev delivered : Delivery
delivered = record { results = blocked ∷ broken ∷ []; stream_error = none; check_error = none }

abbrev styles : Styles
styles = record { green = 1; red = 2; orange = 3; plain = 4; header = 5; title = 6 }

-- An encoder that writes the domain alone.
abbrev encoders : Encoders
encoders = record {
  error_text = λ e. codes "failed";
  rune_count = length;
  json_result = λ (r : JsonResult). r.domain;
  json_status = λ (s : JsonStatus). s.server;
  html_results = λ v rs. ([], true);
  html_statuses = λ v ss. ([], true);
  styles = styles;
  save_as = λ path edits. true;
  write_to = λ edits. ([], true);
}

abbrev no_files : Files
no_files = record {
  read_file = λ path. err (codes "no such file");
  from_json = λ text. err [];
  from_yaml = λ text. err [];
}

abbrev identity : Unicode
identity = record { lower = λ s. s; upper = λ s. s; trim = λ s. s }

abbrev no_duration : Bytes → Option ℤ
no_duration s = none

abbrev everywhere : Bytes → Bool
everywhere path = true

abbrev deliver : Checker MemoryCache → ℤ → ℕ → Delivery × Checker MemoryCache × ℕ
deliver c limit w = (delivered, c, w)

abbrev to_stdout : Writer
to_stdout = writer_over (some fresh_buffer) false format_json []

abbrev ran : Finished ℕ
ran =
    run_check clear encoders no_files identity no_duration everywhere deliver (codes "json" ∷ []) []
      [] 0
