-- ===== src/Dashboard/Plain.antt =====
-- dwho/tui/textual/widgets.py and dashboard.py: the texts of `plain_text`, and the rows made of them.
use dwho.Base.{
  ℕ, ◌≤◌, ◌==◌, ◌&&◌, ◌||◌, String, Bool, true, false, none, some, List, [], ◌∷◌, map, length,
  length-map, length-take, take, all, ◌≡◌, refl, arith, All, ◌∙◌,
}
use dwho.Base.Dict.{Dict}
use dwho.Base.Text.{codes}
use dwho.Dashboard.{
  max_text_length, max_cell_length, max_title_length, Row, Given, table_row, other, Framework,
  plain_char, plain_text,
}
use dwho.Dashboard.Shell.{plain_row, is_valid_row}

module _ {T : Type 0} (framework : Framework T) where
  -- At most so many characters, and each of them printable, or the end of a line where these may stand.
  abbrev pub IsPlain : Bool → ℕ → List ℕ → Type 0
  IsPlain multiline limit text =
      (length text ≤ limit)
      × (all (λ c. framework.is_printable c || (multiline && c == 10)) text ≡ true)

  -- A row with this key and so many cells, all of its texts plain.
  abbrev pub IsPlainRow : ℕ → String × Row → Type 0
  IsPlainRow columns (key, row) =
      (row.key ≡ key)
      × (1 ≤ length (codes key))
      × (length (codes key) ≤ max_title_length)
      × (length row.cells ≡ columns)
      × All (IsPlain false max_cell_length) row.cells
      × IsPlain false max_title_length row.title
      × IsPlain true max_text_length row.details

  -- The rows of a caller, as they are kept.
  abbrev pub plain_rows : List Given → Dict Row
  plain_rows [] = []
  plain_rows (table_row (some key) cells title details ∷ rows) =
      (key, plain_row framework key cells title details) ∷ plain_rows rows
  plain_rows (table_row none cells title details ∷ rows) = plain_rows rows
  plain_rows (other ∷ rows) = plain_rows rows

  module _ (space : framework.is_printable b' ' ≡ true) where
    all-plain_char :
        (multiline : Bool) (text : List ℕ)
        → all
            (λ c. framework.is_printable c || (multiline && c == 10))
            (map (plain_char framework multiline) text)
          ≡ true
    all-plain_char multiline [] = refl
    all-plain_char multiline (c ∷ text) = ground (arith, space, all-plain_char multiline text)

    plain_text-IsPlain :
        (multiline : Bool) (limit : ℕ) (text : List ℕ)
        → IsPlain multiline limit (plain_text framework multiline limit text)
    unfolding plain_text
    plain_text-IsPlain multiline limit text = (
      omega (
        arith,
        length-take limit text,
        length-map (plain_char framework multiline) (take limit text),
      ),
      all-plain_char multiline (take limit text),
    )

    All-plain_text :
        (limit : ℕ) (cells : List (List ℕ))
        → All (IsPlain false limit) (map (plain_text framework false limit) cells)
    All-plain_text limit [] = tt
    All-plain_text limit (cell ∷ cells) =
        (plain_text-IsPlain false limit cell, All-plain_text limit cells)

    pub plain_row-IsPlainRow :
        (columns index : ℕ) (key : String) (cells : List (List ℕ)) (title details : List ℕ)
        (d : Dict Row)
        → is_valid_row framework columns index key cells d ≡ true
        → IsPlainRow columns (key, plain_row framework key cells title details)
    unfolding plain_row is_valid_row
    plain_row-IsPlainRow columns index key cells title details d valid = (
      refl,
      ground (arith, valid),
      ground (arith, valid),
      length-map (plain_text framework false max_cell_length) cells ∙ ground (arith, valid),
      All-plain_text max_cell_length cells,
      plain_text-IsPlain false max_title_length title,
      plain_text-IsPlain true max_text_length details,
    )
