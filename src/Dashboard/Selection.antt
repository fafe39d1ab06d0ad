-- ===== src/Dashboard/Selection.antt =====
-- dwho/tui/textual/dashboard.py: what `_render_rows` shows and where it puts the cursor.
use dwho.Base.{
  ℕ, zero, suc, ◌+◌, ◌<◌, String, Bool, true, false, Option, none, some, List, [], ◌∷◌, length,
  length-map, get_elem?, if◌then◌else◌, is_some, str_eq, eq_iff, eq_refl, ok, ◌≡◌, refl, arith, All,
  Has, here, later, not-Has-nil, ap, ◌∙◌, subst,
}
use dwho.Base.Dict.{Dict, lookup, IsDistinct, is_in}
use dwho.Base.Text.{codes, infix_of}
use dwho.Dashboard.{max_text_length, Row, Framework, Dashboard, plain_text}
use dwho.Dashboard.Shell.{
  index_of, row_keys, joined, target, matching, fill, filled, selected, show_row, show_visible,
  show_details, show_at, drawn, render_rows,
}

-- What the framework says of a table and its cursor.
pub record IsTable {T : Type 0} (framework : Framework T) : Type 0 where
  pub row_count : T → ℕ
  pub count_clear : (t : T) → row_count (framework.clear t) ≡ 0
  pub count_add_row :
      (cells : List (List ℕ)) (key : String) (t : T)
      → row_count (framework.add_row cells key t) ≡ suc (row_count t)
  pub cursor_row_move :
      (n : ℕ) (t : T) → n < row_count t → framework.cursor_row (framework.move_cursor n t) ≡ n

-- Every row stands under its own key, and no key twice.
abbrev pub IsKeyed : Dict Row → Type 0
IsKeyed d = IsDistinct d × All (λ e. e.1.key ≡ e.0) d

-- The row with this key, and the row that is to be shown: that of the key, or the first one.
abbrev pub find_row : String → List Row → Option Row
find_row k [] = none
find_row k (row ∷ rows) = if str_eq row.key k then some row else find_row k rows

abbrev pub chosen : Option String → Row → List Row → Row
chosen none row rows = row
chosen (some k) row rows = elim (find_row k (row ∷ rows)) [ none ↦ row | some r ↦ r ]

get_elem?-index_of :
    (k : String) (rows : List Row) → get_elem? rows (index_of k (row_keys rows)) ≡ find_row k rows
get_elem?-index_of k [] = refl
get_elem?-index_of k (row ∷ rows) = ground (arith, get_elem?-index_of k rows)

is_in-row_keys :
    (k : String) (rows : List Row) → is_in k (row_keys rows) ≡ is_some (find_row k rows)
is_in-row_keys k [] = refl
is_in-row_keys k (row ∷ rows) = ground (arith, is_in-row_keys k rows)

index_of-lt :
    (k : String) (keys : List String) → is_in k keys ≡ true → index_of k keys < length keys
index_of-lt k [] h = cc
index_of-lt k (j ∷ keys) h = ground (arith, index_of-lt k keys)

get_elem?-target :
    (k : Option String) (row : Row) (rows : List Row)
    → get_elem? (row ∷ rows) (target k (row_keys (row ∷ rows))) ≡ some (chosen k row rows)
unfolding target
get_elem?-target none row rows = refl
get_elem?-target (some k) row rows =
    ground (arith, get_elem?-index_of k (row ∷ rows), is_in-row_keys k (row ∷ rows))

target-lt :
    (k : Option String) (key : String) (keys : List String)
    → target k (key ∷ keys) < length (key ∷ keys)
unfolding target
target-lt none key keys = omega arith
target-lt (some k) key keys = ground (arith, index_of-lt k (key ∷ keys))

get_elem?-Has : (rows : List Row) (n : ℕ) {row : Row} → get_elem? rows n ≡ some row → Has row rows
get_elem?-Has [] n h = cc
get_elem?-Has (r ∷ rows) zero {row} h = let e : r ≡ row = cc in subst (λ x. Has x (r ∷ rows)) e here
get_elem?-Has (r ∷ rows) (suc n) h = later (get_elem?-Has rows n h)

Has-is_in : (rows : List Row) {row : Row} → Has row rows → is_in row.key (row_keys rows) ≡ true
Has-is_in [] h = absurd (not-Has-nil h)
Has-is_in (r ∷ rows) here = rw (eq_refl r.key)
Has-is_in (r ∷ rows) {row} (later h) = ground (arith, Has-is_in rows h)

lookup-row :
    (k : String) (r : Row) (d : Dict Row) (row : Row) (rows : List Row)
    → IsKeyed ((k, r) ∷ d)
    → (Has row rows → lookup row.key d ≡ some row)
    → Has row (r ∷ rows)
    → lookup row.key ((k, r) ∷ d) ≡ some row
unfolding lookup
lookup-row k r d row rows keyed others here = rw (keyed.1.0, eq_refl k)
lookup-row k r d row rows keyed others (later h) =
    ground (arith, others h, keyed.0.0, eq_iff k row.key)

module _ {T : Type 0} (framework : Framework T) where
  lookup-matching :
      (term : List ℕ) (d : Dict Row) (row : Row)
      → IsKeyed d
      → Has row (matching framework term d)
      → lookup row.key d ≡ some row
  unfolding matching
  lookup-matching term [] row keyed h = absurd (not-Has-nil h)
  lookup-matching term ((k, r) ∷ d) row keyed h =
      by_match (infix_of term (framework.casefold (joined r.cells)))
        (lookup-matching term d row (keyed.0.1, keyed.1.1)) h
    where
      rest : List Row
      rest = matching framework term d

      by_match :
          (b : Bool)
          → (Has row rest → lookup row.key d ≡ some row)
          → Has row (if b then r ∷ rest else rest)
          → lookup row.key ((k, r) ∷ d) ≡ some row
      by_match true others m = lookup-row k r d row rest keyed others m
      by_match false others m = lookup-row k r d row rest keyed others (later m)

  module _ (table : IsTable framework) where
    row_count-fill :
        (rows : List Row) (t : T)
        → table.row_count (fill framework rows t) ≡ length rows + table.row_count t
    unfolding fill
    row_count-fill [] t = omega arith
    row_count-fill (row ∷ rows) t =
        row_count-fill rows (framework.add_row row.cells row.key t)
        ∙ omega (arith, table.count_add_row row.cells row.key t)

    cursor_row-filled :
        (k : Option String) (row : Row) (rows : List Row) (t : T)
        → framework.cursor_row (filled framework k (row ∷ rows) t)
          ≡ target k (row_keys (row ∷ rows))
    unfolding filled
    cursor_row-filled k row rows t =
        table.cursor_row_move (target k (row_keys (row ∷ rows)))
          (fill framework (row ∷ rows) (framework.clear t))
          (omega (
            arith,
            target-lt k row.key (row_keys rows),
            row_count-fill (row ∷ rows) (framework.clear t),
            table.count_clear t,
            length-map (λ (r : Row). r.key) rows,
          ))

    -- The view behind `_render_rows`, of the rows that match and the key that was selected.
    abbrev pub Shown : Option String → List Row → Dashboard T → Type 0
    Shown k [] s =
        (s.shown ≡ (
          plain_text framework false max_text_length (codes "No selection"),
          plain_text framework true max_text_length (codes "No matching entries in this view."),
        ))
        × (s.is_empty ≡ true)
    Shown k (row ∷ rows) s =
        (get_elem? (row ∷ rows) (framework.cursor_row s.table) ≡ some (chosen k row rows))
        × (s.shown ≡ (
          plain_text framework false max_text_length (chosen k row rows).title,
          plain_text framework true max_text_length (chosen k row rows).details,
        ))
        × (s.is_empty ≡ false)

    show_row-found :
        (s : Dashboard T) (key : String) (row : Row)
        → is_in key s.visible_keys ≡ true
        → lookup key s.rows ≡ some row
        → show_row framework key s ≡ show_details framework row.title row.details s
    unfolding show_row
    show_row-found s key row there found = rw (there, found)

    show_visible-Shown :
        (s : Dashboard T) (visible : List Row)
        → ((row : Row) → Has row visible → lookup row.key s.rows ≡ some row)
        → ((show_visible framework visible (drawn framework visible s)).0 ≡ ok tt)
          × ((show_visible framework visible (drawn framework visible s)).1.visible_keys
              ≡ row_keys visible)
          × Shown
              (selected framework s)
              visible
              (show_visible framework visible (drawn framework visible s)).1
          × ((show_visible framework visible (drawn framework visible s)).1.rows ≡ s.rows)
    unfolding show_visible show_details
    show_visible-Shown s [] found = (refl, refl, (refl, refl), refl)
    show_visible-Shown s (row ∷ rows) found =
        let s' = drawn framework (row ∷ rows) s in
        let k = selected framework s in
        let r = chosen k row rows in
        let at : get_elem? (row ∷ rows) (framework.cursor_row s'.table) ≡ some r =
          ap (get_elem? (row ∷ rows)) (cursor_row-filled k row rows s.table)
          ∙ get_elem?-target k row rows in
        let among = get_elem?-Has (row ∷ rows) (framework.cursor_row s'.table) at in
        let ends =
          ap (λ o. show_at framework o s') at
          ∙ show_row-found s' r.key r (Has-is_in (row ∷ rows) among) (found r among) in
        (
          ap (λ o. o.0) ends,
          ap (λ o. o.1.visible_keys) ends,
          (
            ap (λ o. get_elem? (row ∷ rows) (framework.cursor_row o.1.table)) ends ∙ at,
            ap (λ o. o.1.shown) ends,
            ap (λ o. o.1.is_empty) ends,
          ),
          ap (λ o. o.1.rows) ends,
        )

    -- `_render_rows` returns. The visible keys are then those of the rows that match, in the order of
    -- the rows; the cursor is at the row that was selected before, if it still matches, and else at
    -- the first one, and the details are those of the row under the cursor, or the note that nothing
    -- matches; the rows are as they were.
    pub render_rows-Shown :
        (s : Dashboard T)
        → IsKeyed s.rows
        → ((render_rows framework s).0 ≡ ok tt)
          × ((render_rows framework s).1.visible_keys
              ≡ row_keys (matching framework (framework.casefold s.term) s.rows))
          × Shown
              (selected framework s)
              (matching framework (framework.casefold s.term) s.rows)
              (render_rows framework s).1
          × ((render_rows framework s).1.rows ≡ s.rows)
    unfolding render_rows
    render_rows-Shown s keyed =
        show_visible-Shown s (matching framework (framework.casefold s.term) s.rows)
          (λ row. lookup-matching (framework.casefold s.term) s.rows row keyed)
