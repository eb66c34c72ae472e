-- ===== src/Output/Writer/Close.antt =====
-- internal/cli/output.go: `Close`. `none` is a panic; the Boolean says whether the error is nil.
use nawala_checker.Common.{
  ◌+◌, Bool, true, false, Option, none, some, ◌++◌, Bytes, codes, if◌then◌else◌, is_empty, map,
}
use nawala_checker.Output.{version, Format, format_text, format_json, format_html, format_xlsx}
use nawala_checker.Output.Text.{write_text_results, write_text_statuses}
use nawala_checker.Output.Xlsx.{workbook}
use nawala_checker.Output.Writer.{
  Encoders, Writer, emit, flush_writer, json_open, json_of_status, html_of_result,
}

abbrev pub Closed : Type 0
Closed = Option (Bool × Writer)

abbrev release : Writer → Writer
release w = if w.closer then record w { closes = w.closes + 1 } else w

-- The flush and the closing of the file, at the end of `Close`.
pub flush_and_close : Writer → Closed
unfolding flush_writer
flush_and_close w = some (true, release (flush_writer w))

abbrev pub json_end : Bytes
json_end = codes "]}}\n"

abbrev key_or_result : Bytes → Bytes
key_or_result key = if is_empty key then codes "result" else key

pub close_json : Writer → Closed
unfolding emit flush_and_close
close_json w =
    if w.json_started
    then flush_and_close (record (emit json_end w) { json_started = false })
    else flush_and_close
        (emit (codes "\n") (emit (json_open (key_or_result w.json_key) ++ codes "]}}") w))

-- A table that there are rows for; the code writes it line by line.
pub with_table : Bool → Option Bytes → Writer → Option Writer
unfolding emit
with_table true table w = some w
with_table false none w = none
with_table false (some table) w = some (emit table w)

module _ (enc : Encoders) where
  pub close_text : Writer → Closed
  unfolding with_table flush_and_close
  close_text w =
      elim (with_table (is_empty w.results)
        (write_text_results enc.rune_count enc.error_text w.results) w) [
          | none ↦ none
          | some w' ↦
              elim (with_table (is_empty w.statuses)
                (write_text_statuses enc.rune_count enc.error_text w.statuses) w') [
                  | none ↦ none
                  | some w'' ↦ flush_and_close w''
                ]
        ]

  -- A failed template leaves what it wrote in the buffer, and the file open.
  pub after_page : Bytes × Bool → Writer → Closed
  unfolding emit flush_and_close
  after_page (page, good) w =
      if good then flush_and_close (emit page w) else some (false, emit page w)

  pub close_html : Writer → Closed
  unfolding after_page html_of_result json_of_status
  close_html w =
      if is_empty w.results
      then if is_empty w.statuses
        then flush_and_close w
        else after_page (enc.html_statuses version (map (json_of_status enc) w.statuses)) w
      else after_page (enc.html_results version (map (html_of_result enc) w.results)) w

  -- Nothing is flushed here.
  pub close_xlsx : Writer → Closed
  unfolding emit workbook
  close_xlsx w =
      let edits = workbook enc.error_text enc.styles w.results w.statuses in
      if is_empty w.output_path
      then some ((enc.write_to edits).1, emit (enc.write_to edits).0 w)
      else some (enc.save_as w.output_path edits, w)

  close_as : Format → Writer → Closed
  unfolding close_json close_text close_html close_xlsx
  close_as format_json w = close_json w
  close_as format_text w = close_text w
  close_as format_html w = close_html w
  close_as format_xlsx w = close_xlsx w

  unfoldable pub close : Writer → Closed
  unfolding close_as
  close w = if w.cancelled then some (true, release w) else close_as w.format w
