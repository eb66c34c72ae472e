-- ===== src/Output/Xlsx/Cells.antt =====
-- What the Excel sheet shows: the last text written to a cell, and the last width of a column.
use nawala_checker.Common.{
  ℕ, ◌+◌, ◌≤◌, ◌≡◌, ◌≢◌, refl, sym, ap, ◌∙◌, inl, inr, Bool, true, false, Option, none, some, List,
  [], ◌∷◌, ◌++◌, Bytes, if◌then◌else◌, length, text_eq, text_eq_sound, text_eq_refl, Bool-cases,
}
use nawala_checker.Strings.Decimal.{decimal, decimal-spelled, spelled_from}
use nawala_checker.Output.Xlsx.{
  Column, col_a, col_b, col_c, cell, Edit, set_value, set_style, merge, row_height, col_width,
  Widths, column_width, set_widths,
}

abbrev pub or_else {ℓ} : {A : Type ℓ} → Option A → Option A → Option A
or_else (some a) o = some a
or_else none o = o

-- The text of the cell: the last one written.
unfoldable pub value : Bytes → List Edit → Option Bytes
value at [] = none
value at (set_value c t ∷ es) = or_else (value at es) (if text_eq c at then some t else none)
value at (_ ∷ es) = value at es

abbrev same_column : Column → Column → Bool
same_column col_a col_a = true
same_column col_b col_b = true
same_column col_c col_c = true
same_column _ _ = false

-- The width of the column: the last one set.
unfoldable pub width_of : Column → List Edit → Option ℕ
width_of c [] = none
width_of c (col_width d n ∷ es) = or_else (width_of c es) (if same_column d c then some n else none)
width_of c (_ ∷ es) = width_of c es

-- The cell shows the text, and its column has room for it and six characters more.
abbrev pub Shows : List Edit → Column → ℕ → Bytes → Type 0
Shows es c row t =
    (value (cell c row) es ≡ some t) × ((n : ℕ) × (width_of c es ≡ some n) × (length t + 6 ≤ n))

or_else_assoc {ℓ} :
    {A : Type ℓ} (x y z : Option A) → or_else (or_else x y) z ≡ or_else x (or_else y z)
or_else_assoc (some a) y z = refl
or_else_assoc none y z = refl

or_else-none {ℓ} : {A : Type ℓ} (x : Option A) → or_else x none ≡ x
or_else-none (some a) = refl
or_else-none none = refl

pub value-append :
    (at : Bytes) (xs ys : List Edit) → value at (xs ++ ys) ≡ or_else (value at ys) (value at xs)
unfolding value
value-append at [] ys = sym (or_else-none _)
value-append at (set_value c t ∷ xs) ys =
    ap (λ o. or_else o (if text_eq c at then some t else none)) (value-append at xs ys)
    ∙ or_else_assoc (value at ys) _ _
value-append at (set_style c d n ∷ xs) ys = value-append at xs ys
value-append at (merge c d ∷ xs) ys = value-append at xs ys
value-append at (row_height n h ∷ xs) ys = value-append at xs ys
value-append at (col_width c n ∷ xs) ys = value-append at xs ys

pub width_of-append :
    (c : Column) (xs ys : List Edit)
    → width_of c (xs ++ ys) ≡ or_else (width_of c ys) (width_of c xs)
unfolding width_of
width_of-append c [] ys = sym (or_else-none _)
width_of-append c (col_width d n ∷ xs) ys =
    ap (λ o. or_else o (if same_column d c then some n else none)) (width_of-append c xs ys)
    ∙ or_else_assoc (width_of c ys) _ _
width_of-append c (set_value d t ∷ xs) ys = width_of-append c xs ys
width_of-append c (set_style d e n ∷ xs) ys = width_of-append c xs ys
width_of-append c (merge d e ∷ xs) ys = width_of-append c xs ys
width_of-append c (row_height n h ∷ xs) ys = width_of-append c xs ys

decimal_injective : (n m : ℕ) → decimal n ≡ decimal m → n ≡ m
decimal_injective n m e = sym (decimal-spelled n) ∙ (ap (spelled_from 0) e ∙ decimal-spelled m)

-- Cells of different rows are different, and so are cells of different columns.
pub cell_other_row : (c d : Column) (n m : ℕ) → n ≢ m → text_eq (cell c n) (cell d m) ≡ false
cell_other_row c d n m h = elim (Bool-cases (text_eq (cell c n) (cell d m))) [
  | inl e ↦ absurd (h (decimal_injective n m (tail_eq (text_eq_sound _ _ e))))
  | inr e ↦ e
]
  where
    tail_eq : {x y : ℕ} {s t : Bytes} → (x ∷ s) ≡ (y ∷ t) → s ≡ t
    tail_eq q = cc

pub cell_same : (c : Column) (n : ℕ) → text_eq (cell c n) (cell c n) ≡ true
cell_same c n = text_eq_refl (cell c n)

abbrev pub column_of : Widths → Column → ℕ
column_of w col_a = w.max_a
column_of w col_b = w.max_b
column_of w col_c = w.max_c

pub width-set_widths :
    (c : Column) (w : Widths) → width_of c (set_widths w) ≡ some (column_width (column_of w c))
unfolding width_of
width-set_widths col_a w = refl
width-set_widths col_b w = refl
width-set_widths col_c w = refl

pub value-set_widths : (at : Bytes) (w : Widths) → value at (set_widths w) ≡ none
unfolding value
value-set_widths at w = refl
