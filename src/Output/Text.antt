-- ===== src/Output/Text.antt =====
-- internal/cli/output.go: the text format. Every row has a left column, a status in the middle and a
-- last column. `none` is a panic: `strings.Repeat` with a negative count, or row 0 of no rows.
pub mod Aligned
use nawala_checker.Common.{
  ℕ, zero, suc, ◌+◌, ◌-◌, ◌*◌, ◌/◌, Bool, true, false, Option, none, some, List, [], ◌∷◌, ◌++◌,
  Bytes, codes, if◌then◌else◌, ltb, length, replicate, drop, map,
}
use nawala_checker.Strings.{has_prefix}
use nawala_checker.Types.{Error, Result, ServerStatus}
use nawala_checker.Output.{version, signed_decimal, result_label, online_label, grow}

abbrev pub spaces : ℕ → Bytes
spaces n = replicate n b' '

-- `strings.Repeat("─", n)`: three bytes for each.
abbrev pub ruler : ℕ → Bytes
ruler zero = []
ruler (suc n) = 226 ∷ 148 ∷ 128 ∷ ruler n

abbrev pub banner_title : Bytes
banner_title = codes " Nawala Checker v" ++ (version ++ codes " ")

unfoldable pub text_banner : ℕ → Bytes
text_banner total =
    let fill = total - length banner_title in
    ruler (fill / 2) ++ (banner_title ++ ruler (fill - fill / 2))

unfoldable pub text_center_pad : Bytes → ℕ → Option Bytes
text_center_pad s w =
    let sp = w - length s in
    if ltb w (length s) then none else some (spaces (sp / 2) ++ (s ++ spaces (sp - sp / 2)))

-- A row: `domain` or `server`, `status`, and `server` or `info`.
pub record Row : Type 0 where
  pub left : Bytes
  pub status : Bytes
  pub last : Bytes

abbrev pub pad : Bytes
pad = codes "    "

-- The widths of the columns, as the loops over the rows gather them.
unfoldable pub widest : (Row → Bytes) → ℕ → List Row → ℕ
widest column n [] = n
widest column n (r ∷ rs) = widest column (grow n (length (column r))) rs

-- `%-*s`: padded on the right to a number of runes; `rune_count` is `utf8.RuneCountInString`.
unfoldable pub pad_right : (Bytes → ℕ) → ℕ → Bytes → Bytes
pad_right rune_count w s = s ++ spaces (w - rune_count s)

-- `strings.TrimPrefix`
unfoldable pub trim_prefix : Bytes → Bytes → Bytes
trim_prefix s p = if has_prefix s p then drop (length p) s else s

module _ (error_text : Error → Bytes) where
  unfoldable pub result_row : Result → Row
  result_row r = record { left = r.domain; status = result_label error_text r; last = r.server }

  info : Bool → Bytes → Option Error → Bytes
  info true latency e = latency ++ codes "ms"
  info false latency none = []
  info false latency (some e) = trim_prefix (error_text e) (codes "nawala: ")

  unfoldable pub status_row : ServerStatus → Row
  unfolding info trim_prefix
  status_row s = record {
    left = s.server;
    status = online_label s.online;
    last = info s.online (signed_decimal s.latency_ms) s.error;
  }

module _ (rune_count : Bytes → ℕ) where
  unfoldable pub text_row : ℕ → ℕ → Row → Option Bytes
  text_row w1 w2 r = elim (text_center_pad r.status w2) [
    | none ↦ none
    | some centred ↦
        some
          (pad_right rune_count w1 r.left ++ (pad ++ (centred ++ (pad ++ (r.last ++ b'\n' ∷ [])))))
  ]

  unfoldable pub text_rows : ℕ → ℕ → List Row → Option Bytes
  text_rows w1 w2 [] = some []
  text_rows w1 w2 (r ∷ rs) = elim (text_row w1 w2 r) [
    | none ↦ none
    | some line ↦ elim (text_rows w1 w2 rs) [ none ↦ none | some rest ↦ some (line ++ rest) ]
  ]

  -- The banner of a width, an empty line, and the rows.
  pub table : ℕ → List Row → Option Bytes
  table last rs =
      let w1 = widest (λ r. r.left) 0 rs in
      let w2 = widest (λ r. r.status) 0 rs in
      elim (text_rows w1 w2 rs) [
        | none ↦ none
        | some body ↦ some (text_banner (w1 + (4 + (w2 + (4 + last)))) ++ (b'\n' ∷ b'\n' ∷ body))
      ]

  module _ (error_text : Error → Bytes) where
    pub result_table : List Row → Option Bytes
    result_table [] = none
    result_table (r ∷ rs) = table (length r.last) (r ∷ rs)

    unfoldable pub write_text_results : List Result → Option Bytes
    unfolding result_table table text_rows widest result_row
    write_text_results results = result_table (map (result_row error_text) results)

    unfoldable pub write_text_statuses : List ServerStatus → Option Bytes
    unfolding table text_rows widest status_row
    write_text_statuses statuses =
        let rows = map (status_row error_text) statuses in table (widest (λ r. r.last) 0 rows) rows
