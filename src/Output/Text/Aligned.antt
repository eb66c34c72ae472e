-- ===== src/Output/Text/Aligned.antt =====
-- The columns of the text format.
use nawala_checker.Common.{ℕ, ◌+◌, ◌≤◌, ◌≡◌, Option, some, List, [], ◌∷◌, ◌++◌, Bytes, length}
use nawala_checker.Output.Text.{spaces, text_banner, Row, widest}

-- The lines of a text, one behind the other.
abbrev pub joined : List Bytes → Bytes
joined [] = []
joined (l ∷ ls) = l ++ joined ls

-- A line shows its row: the left column, the status between spaces, and the last column, which starts
-- behind `width` bytes.
abbrev pub IsLine : ℕ → Row → Bytes → Type 0
IsLine width r l =
    (i : ℕ) × (k : ℕ) × (l
      ≡ (r.left ++ (spaces i ++ (r.status ++ spaces k))) ++ (r.last ++ b'\n' ∷ []))
    × (length (r.left ++ (spaces i ++ (r.status ++ spaces k))) ≡ width)

-- One line for each row, in order.
abbrev pub Lines : ℕ → List Row → List Bytes → Type 0
Lines width [] [] = Unit
Lines width (r ∷ rs) (l ∷ ls) = IsLine width r l × Lines width rs ls
Lines width _ _ = ⊥

module _ (rune_count : Bytes → ℕ) where
  -- The row fits the widths, and its left column has as many runes as bytes.
  abbrev Fits : ℕ → ℕ → Row → Type 0
  Fits w1 w2 r = (length r.left ≤ w1) × (length r.status ≤ w2) × (rune_count r.left ≡ length r.left)

  abbrev pub left_width : List Row → ℕ
  left_width = widest (λ r. r.left) 0

  abbrev pub status_width : List Row → ℕ
  status_width = widest (λ r. r.status) 0

  -- The table with its banner, whatever the width of the last column is taken to be.
  abbrev pub IsTable : ℕ → List Row → Option Bytes → Type 0
  IsTable last rs out =
      (ls : List Bytes) × (out
        ≡ some (
            text_banner (left_width rs + (4 + (status_width rs + (4 + last))))
            ++ (b'\n' ∷ b'\n' ∷ joined ls)))
      × Lines (left_width rs + status_width rs + 8) rs ls
