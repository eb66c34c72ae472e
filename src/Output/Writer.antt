-- ===== src/Output/Writer.antt =====
-- internal/cli/output.go: the type `Writer`. A `bufio.Writer` is the bytes that it holds back and those
-- that it has passed on; writing to the sink below it succeeds. The packages for JSON, HTML and Excel
-- are the parameters `Encoders`.
pub mod Buffered
pub mod Close
pub mod Json
use nawala_checker.Common.{
  ℕ, ◌+◌, Bool, true, false, not, ◌&&◌, Option, none, some, List, [], ◌∷◌, ◌++◌, Bytes, codes,
  if◌then◌else◌, is_empty,
}
use nawala_checker.Common.Int.{ℤ}
use nawala_checker.Types.{Error, Result, ServerStatus}
use nawala_checker.Output.{version, Format, format_text, format_json, format_html, format_xlsx}
use nawala_checker.Output.Text.{write_text_results, write_text_statuses}
use nawala_checker.Output.Xlsx.{Edit, Styles, workbook}
use nawala_checker.Output.Writer.Buffered.{Buffer, fresh_buffer, write, flush_buffer}

-- `blocked` is left out where there is an error.
pub record JsonResult : Type 0 where
  pub domain : Bytes
  pub blocked : Option Bool
  pub server : Bytes
  pub error : Bytes

pub record JsonStatus : Type 0 where
  pub server : Bytes
  pub online : Bool
  pub latency_ms : ℤ
  pub error : Bytes

-- A row of a page; the text of the error is empty where there is none.
pub record HtmlResult : Type 0 where
  pub domain : Bytes
  pub blocked : Bool
  pub server : Bytes
  pub error : Bytes

-- The packages that the writer calls: `json.Marshal`, the two templates at the version and the rows
-- (what they wrote, and whether they succeeded), and the Excel library: the styles that it hands out,
-- `SaveAs` (whether it succeeded) and `WriteTo` (the bytes of its one write, and success).
pub record Encoders : Type 0 where
  pub error_text : Error → Bytes
  pub rune_count : Bytes → ℕ
  pub json_result : JsonResult → Bytes
  pub json_status : JsonStatus → Bytes
  pub html_results : Bytes → List HtmlResult → Bytes × Bool
  pub html_statuses : Bytes → List JsonStatus → Bytes × Bool
  pub styles : Styles
  pub save_as : Bytes → List Edit → Bool
  pub write_to : List Edit → Bytes × Bool

pub record Writer : Type 0 where
  -- `w.w`, if it is not nil
  pub buffer : Option Buffer
  -- whether there is a file to close, and how often it has been closed
  pub closer : Bool
  pub closes : ℕ
  pub format : Format
  pub json_started : Bool
  pub json_key : Bytes
  pub output_path : Bytes
  pub cancelled : Bool
  pub results : List Result
  pub statuses : List ServerStatus

abbrev is_xlsx : Format → Bool
is_xlsx format_xlsx = true
is_xlsx _ = false

abbrev pub writer_over : Option Buffer → Bool → Format → Bytes → Writer
writer_over buffer closer format path = record {
  buffer = buffer;
  closer = closer;
  closes = 0;
  format = format;
  json_started = false;
  json_key = [];
  output_path = path;
  cancelled = false;
  results = [];
  statuses = [];
}

-- `can_create` says whether `os.Create` succeeds; `none` is its error.
unfoldable pub new_writer : (Bytes → Bool) → Bytes → Format → Option Writer
new_writer can_create path format =
    if is_xlsx format && not (is_empty path)
    then some (writer_over none false format path)
    else if is_empty path
    then some (writer_over (some fresh_buffer) false format path)
    else if can_create path
    then some (writer_over (some fresh_buffer) true format path)
    else none

-- `w.w.WriteString`; without a buffer it would panic, and no call is without one.
unfoldable pub emit : Bytes → Writer → Writer
emit s w = record w { buffer = elim w.buffer [ none ↦ none | some b ↦ some (write s b) ] }

unfoldable pub flush_writer : Writer → Writer
flush_writer w = record w {
  buffer = elim w.buffer [ none ↦ none | some b ↦ some (flush_buffer b) ];
}

-- `{"nawala":{"version":…,"…":[`; the version has no character that `%q` would escape.
abbrev pub json_open : Bytes → Bytes
json_open key =
    codes "{\"nawala\":{\"version\":\"" ++ (version ++ (codes "\",\"" ++ (key ++ codes "\":[")))

-- The common part of `writeJSON` and `writeStatusJSON`, from the encoded element on.
unfoldable pub write_element : Bytes → Bytes → Writer → Writer
unfolding emit flush_writer
write_element key element w = flush_writer (
    emit element (
      if w.json_started
      then emit (codes ",") w
      else emit (json_open key) (record w { json_started = true; json_key = key })))

abbrev error_or_empty : (Error → Bytes) → Option Error → Bytes
error_or_empty error_text none = []
error_or_empty error_text (some e) = error_text e

abbrev blocked_unless : Option Error → Bool → Option Bool
blocked_unless none b = some b
blocked_unless (some e) b = none

module _ (enc : Encoders) where
  unfoldable pub json_of_result : Result → JsonResult
  json_of_result r = record {
    domain = r.domain;
    blocked = blocked_unless r.error r.blocked;
    server = r.server;
    error = error_or_empty enc.error_text r.error;
  }

  unfoldable pub json_of_status : ServerStatus → JsonStatus
  json_of_status s = record {
    server = s.server;
    online = s.online;
    latency_ms = s.latency_ms;
    error = error_or_empty enc.error_text s.error;
  }

  unfoldable pub html_of_result : Result → HtmlResult
  html_of_result r = record {
    domain = r.domain;
    blocked = r.blocked;
    server = r.server;
    error = error_or_empty enc.error_text r.error;
  }

  write_result_as : Format → Result → Writer → Writer
  unfolding write_element json_of_result
  write_result_as format_json r w =
      write_element (codes "result") (enc.json_result (json_of_result r)) w
  write_result_as _ r w = record w { results = w.results ++ r ∷ [] }

  unfoldable pub write_result : Result → Writer → Writer
  unfolding write_result_as
  write_result r w = write_result_as w.format r w

  write_status_as : Format → ServerStatus → Writer → Writer
  unfolding write_element json_of_status
  write_status_as format_json s w =
      write_element (codes "status") (enc.json_status (json_of_status s)) w
  write_status_as _ s w = record w { statuses = w.statuses ++ s ∷ [] }

  unfoldable pub write_status : ServerStatus → Writer → Writer
  unfolding write_status_as
  write_status s w = write_status_as w.format s w

unfoldable pub cancel : Writer → Writer
cancel w = record w { cancelled = true }
