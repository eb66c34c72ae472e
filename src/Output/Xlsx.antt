-- ===== src/Output/Xlsx.antt =====
-- internal/cli/output.go: the Excel format. The calls of the library on the sheet are a list of edits,
-- in the order in which the code makes them; what the library makes of them is a parameter of the
-- writer. A style is the number that the library gave for it.
pub mod Cells
pub mod Sheet
use nawala_checker.Common.{
  ℕ, zero, suc, ◌+◌, Bool, true, false, Option, none, some, List, [], ◌∷◌, ◌++◌, Bytes, codes,
  if◌then◌else◌, ltb, length, is_empty,
}
use nawala_checker.Strings.Decimal.{decimal}
use nawala_checker.Types.{Error, Result, ServerStatus}
use nawala_checker.Output.{version, signed_decimal, result_label, label_of, online_label, grow}

pub data Column : Type 0 where
  col_a col_b col_c : Column

abbrev pub letter : Column → ℕ
letter col_a = b'A'
letter col_b = b'B'
letter col_c = b'C'

-- `fmt.Sprintf("A%d", row)`
abbrev pub cell : Column → ℕ → Bytes
cell c row = letter c ∷ decimal row

pub data Edit : Type 0 where
  set_value : Bytes → Bytes → Edit
  set_style : Bytes → Bytes → ℕ → Edit
  merge : Bytes → Bytes → Edit
  row_height : ℕ → ℕ → Edit
  col_width : Column → ℕ → Edit

pub record Styles : Type 0 where
  pub green : ℕ
  pub red : ℕ
  pub orange : ℕ
  pub plain : ℕ
  pub header : ℕ
  pub title : ℕ

-- The longest text of each column so far.
pub record Widths : Type 0 where
  pub max_a : ℕ
  pub max_b : ℕ
  pub max_c : ℕ

abbrev pub column_width : ℕ → ℕ
column_width chars = if ltb (chars + 6) 10 then 10 else chars + 6

pub title_and_header : Styles → Bytes → Bytes → Bytes → List Edit
title_and_header st a b c =
    set_value (codes "A1") (codes "Nawala Checker v" ++ version)
    ∷ merge (codes "A1") (codes "C1")
    ∷ set_style (codes "A1") (codes "C1") st.title
    ∷ row_height 1 22
    ∷ set_value (codes "A2") a
    ∷ set_value (codes "B2") b
    ∷ set_value (codes "C2") c
    ∷ set_style (codes "A2") (codes "C2") st.header
    ∷ row_height 2 20
    ∷ []

abbrev pub label_style : Styles → Option Error → Bool → ℕ
label_style st (some e) blocked = st.orange
label_style st none true = st.red
label_style st none false = st.green

abbrev value_and_style : Bytes → Bytes → ℕ → List Edit → List Edit
value_and_style at text style rest = set_value at text ∷ set_style at at style ∷ rest

module _ (error_text : Error → Bytes) where
  pub latency_or_error : Bool → Bytes → Option Error → Bytes
  latency_or_error true latency e = latency ++ codes "ms"
  latency_or_error false latency none = []
  latency_or_error false latency (some e) = error_text e

  pub last_column : ServerStatus → Bytes
  unfolding latency_or_error
  last_column s = latency_or_error s.online (signed_decimal s.latency_ms) s.error

  pub result_widths : Result → Widths → Widths
  result_widths r w = record {
    max_a = grow w.max_a (length r.domain);
    max_b = grow w.max_b (length (result_label error_text r));
    max_c = grow w.max_c (length r.server);
  }

  pub status_widths : ServerStatus → Widths → Widths
  unfolding last_column
  status_widths s w = record {
    max_a = grow w.max_a (length s.server);
    max_b = grow w.max_b (length (online_label s.online));
    max_c = grow w.max_c (length (last_column s));
  }

module _ (error_text : Error → Bytes) (st : Styles) where
  pub set_result_cell : Bytes → Result → List Edit
  set_result_cell at r =
      value_and_style at (result_label error_text r) (label_style st r.error r.blocked) []

  -- One round of the loop over the results.
  pub result_edits : ℕ → Result → List Edit
  unfolding set_result_cell
  result_edits row r =
      value_and_style (cell col_a row) r.domain st.plain
        (value_and_style (cell col_c row) r.server st.plain (set_result_cell (cell col_b row) r))

  pub status_edits : ℕ → ServerStatus → List Edit
  unfolding last_column
  status_edits row s = value_and_style (cell col_a row) s.server st.plain (
      value_and_style (cell col_b row) (online_label s.online)
        (if s.online then st.green else st.red)
        (value_and_style (cell col_c row) (last_column error_text s) st.plain []))

-- The loop over the rows, from a row number on: the edits, and the widths at its end.
pub rows_from :
    {A : Type 0}
    → (ℕ → A → List Edit)
    → (A → Widths → Widths)
    → ℕ
    → List A
    → Widths
    → List Edit × Widths
rows_from edits widths row [] w = ([], w)
rows_from edits widths row (a ∷ as_) w =
    let (rest, w') = rows_from edits widths (suc row) as_ (widths a w) in (edits row a ++ rest, w')

abbrev pub set_widths : Widths → List Edit
set_widths w =
    col_width col_a (column_width w.max_a)
    ∷ col_width col_b (column_width w.max_b)
    ∷ col_width col_c (column_width w.max_c)
    ∷ []

-- A header, the rows from row 3 on, and the widths.
pub sheet_of :
    {A : Type 0}
    → (ℕ → A → List Edit)
    → (A → Widths → Widths)
    → Styles
    → Bytes
    → Bytes
    → Bytes
    → List A
    → List Edit
unfolding title_and_header rows_from
sheet_of edits widths st a b c rows =
    let (body, w) =
      rows_from edits widths 3 rows
        (record { max_a = length a; max_b = length b; max_c = length c }) in
    title_and_header st a b c ++ (body ++ set_widths w)

pub result_sheet : (Error → Bytes) → Styles → List Result → List Edit
unfolding sheet_of result_edits result_widths
result_sheet error_text st =
    sheet_of (result_edits error_text st) (result_widths error_text) st (codes "Domain")
      (codes "Status") (codes "Server")

pub status_sheet : (Error → Bytes) → Styles → List ServerStatus → List Edit
unfolding sheet_of status_edits status_widths
status_sheet error_text st =
    sheet_of (status_edits error_text st) (status_widths error_text) st (codes "Server")
      (codes "Status") (codes "Latency / Error")

-- The edits that `closeXLSX` makes before it saves.
unfoldable pub workbook : (Error → Bytes) → Styles → List Result → List ServerStatus → List Edit
unfolding result_sheet status_sheet
workbook error_text st results statuses =
    (if is_empty results then [] else result_sheet error_text st results)
    ++ (if is_empty statuses then [] else status_sheet error_text st statuses)
