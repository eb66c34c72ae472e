-- ===== src/Output/Xlsx/Sheet.antt =====
-- Every row of the Excel sheet is there and has room.
use nawala_checker.Common.{ℕ, ◌≤◌, ◌≡◌, ◌≢◌, none, some, List, Bytes, length}
use nawala_checker.Types.{Error, Result, ServerStatus}
use nawala_checker.Output.{result_label, online_label}
use nawala_checker.Output.Xlsx.{Column, col_a, col_b, col_c, cell, Edit, Widths, last_column}
use nawala_checker.Output.Xlsx.Cells.{value, column_of}

-- What the edits of a row and its widths do, whatever the kind of row.
record IsRow {A : Type 0} (edits : ℕ → A → List Edit) (widths : A → Widths → Widths)
    (texts : A → Column → Bytes) : Type 0 where
  shown : (row : ℕ) (a : A) (c : Column) → value (cell c row) (edits row a) ≡ some (texts a c)
  own : (row m : ℕ) (a : A) (c : Column) → row ≢ m → value (cell c m) (edits row a) ≡ none
  wide :
      (a : A) (w : Widths) (c : Column)
      → (length (texts a c) ≤ column_of (widths a w) c) × (column_of w c ≤ column_of (widths a w) c)

abbrev pub result_texts : (Error → Bytes) → Result → Column → Bytes
result_texts error_text r col_a = r.domain
result_texts error_text r col_b = result_label error_text r
result_texts error_text r col_c = r.server

abbrev pub status_texts : (Error → Bytes) → ServerStatus → Column → Bytes
status_texts error_text s col_a = s.server
status_texts error_text s col_b = online_label s.online
status_texts error_text s col_c = last_column error_text s
