-- ===== src/Dashboard/Shell.antt =====
-- dwho/tui/textual/dashboard.py: the methods of DashboardApp.
use dwho.Base.{
  ℕ, zero, suc, ◌==◌, ◌&&◌, not, ltb, leb, String, Bool, true, false, Option, none, some, List, [],
  ◌∷◌, ◌++◌, map, length, get_elem?, if◌then◌else◌, is_some, str_eq, Result, ok, raise, value_error,
  key_error, foreign,
}
use dwho.Base.Dict.{Dict, lookup, insert, is_in}
use dwho.Base.Exec.{Exec, lift, gets, ◌>>=◌}
use dwho.Base.Text.{codes, infix_of}
use dwho.Dashboard.{
  max_text_length, max_rows, max_cell_length, max_title_length, Row, Given, table_row, other,
  Framework, navigation_requested, selection_changed, Dashboard, keys_of, known_state, plain_text,
}

-- The position of a text that is there.
abbrev pub index_of : String → List String → ℕ
index_of k [] = 0
index_of k (j ∷ ks) = if str_eq j k then 0 else suc (index_of k ks)

-- ' '.join(cells)
abbrev pub joined : List (List ℕ) → List ℕ
joined [] = []
joined (c ∷ []) = c
joined (c ∷ d ∷ cs) = c ++ (b' ' ∷ joined (d ∷ cs))

abbrev pub row_keys : List Row → List String
row_keys rows = map (λ r. r.key) rows

-- self._visible_keys.index(selected) if selected in self._visible_keys else 0
unfoldable pub target : Option String → List String → ℕ
target none keys = 0
target (some k) keys = if is_in k keys then index_of k keys else 0

abbrev is_nil : List Row → Bool
is_nil [] = true
is_nil (_ ∷ _) = false

abbrev is_key : String → Option String → Bool
is_key key none = false
is_key key (some k) = str_eq key k

-- The classes of the buttons, where the button with this index is active.
unfoldable pub activate : ℕ → List Bool → List Bool
activate index [] = []
activate zero (_ ∷ bs) = true ∷ map (λ _. false) bs
activate (suc index) (_ ∷ bs) = false ∷ activate index bs

-- `select_navigation`
unfoldable pub select_navigation : {T : Type 0} → String → Exec (Dashboard T) (Unit {0})
select_navigation key s =
    if is_in key (keys_of s.navigation)
    then (ok tt, record s { active = activate (index_of key (keys_of s.navigation)) s.active })
    else (raise value_error, s)

-- `on_button_pressed` of the navigation button with this index
unfoldable pub on_navigation : {T : Type 0} → ℕ → Exec (Dashboard T) (Unit {0})
on_navigation index s = elim (get_elem? s.navigation index) [
  | none ↦ (raise (foreign 1), s)
  | some item ↦ (ok tt, record s { messages = s.messages ++ (navigation_requested item.0 ∷ []) })
]

module _ {T : Type 0} (framework : Framework T) where
  -- The row that is kept for a TableRow.
  unfoldable pub plain_row : String → List (List ℕ) → List ℕ → List ℕ → Row
  plain_row key cells title details = record {
    key = key;
    cells = map (plain_text framework false max_cell_length) cells;
    title = plain_text framework false max_title_length title;
    details = plain_text framework true max_text_length details;
  }

  -- What `display_rows` asks of the row at this index, behind those that are prepared.
  unfoldable pub is_valid_row : ℕ → ℕ → String → List (List ℕ) → Dict Row → Bool
  is_valid_row columns index key cells prepared =
      ltb index max_rows
      && leb 1 (length (codes key))
      && leb (length (codes key)) max_title_length
      && not (is_some (lookup key prepared))
      && length cells == columns

  -- The loop of `display_rows`.
  unfoldable pub prepare : ℕ → ℕ → List Given → Dict Row → Result (Dict Row)
  prepare columns index [] prepared = ok prepared
  prepare columns index (other ∷ rows) prepared = raise value_error
  prepare columns index (table_row none cells title details ∷ rows) prepared = raise value_error
  prepare columns index (table_row (some key) cells title details ∷ rows) prepared =
      let rest =
        prepare columns (suc index) rows
          (insert key (plain_row key cells title details) prepared) in
      if is_valid_row columns index key cells prepared then rest else raise value_error

  -- The rows with the term in them.
  unfoldable pub matching : List ℕ → Dict Row → List Row
  matching term [] = []
  matching term ((_, row) ∷ rows) =
      let rest = matching term rows in
      if infix_of term (framework.casefold (joined row.cells)) then row ∷ rest else rest

  unfoldable pub fill : List Row → T → T
  fill [] table = table
  fill (row ∷ rows) table = fill rows (framework.add_row row.cells row.key table)

  -- The key of the row under the cursor, of those that are visible.
  unfoldable pub selected : Dashboard T → Option String
  selected s = get_elem? s.visible_keys (framework.cursor_row s.table)

  -- DetailPanel.show_details
  unfoldable pub show_details : List ℕ → List ℕ → Exec (Dashboard T) (Unit {0})
  show_details title text s = (
    ok tt,
    record s {
      shown = (
        plain_text framework false max_text_length title,
        plain_text framework true max_text_length text,
      );
    },
  )

  abbrev show_found : Option Row → Exec (Dashboard T) (Unit {0})
  show_found none s = (raise key_error, s)
  show_found (some row) s = show_details row.title row.details s

  -- `_show_row`
  unfoldable pub show_row : String → Exec (Dashboard T) (Unit {0})
  show_row key s = if is_in key s.visible_keys then show_found (lookup key s.rows) s else (ok tt, s)

  -- The end of `_render_rows`: an index behind the rows raises IndexError.
  abbrev pub show_at : Option Row → Exec (Dashboard T) (Unit {0})
  show_at none s = (raise (foreign 1), s)
  show_at (some row) s = show_row row.key s

  unfoldable pub show_visible : List Row → Exec (Dashboard T) (Unit {0})
  show_visible [] s =
      show_details (codes "No selection") (codes "No matching entries in this view.") s
  show_visible (row ∷ rows) s = show_at (get_elem? (row ∷ rows) (framework.cursor_row s.table)) s

  -- The table with these rows, and its cursor at the row that was selected.
  unfoldable pub filled : Option String → List Row → T → T
  filled k [] table = framework.clear table
  filled k (row ∷ rows) table =
      framework.move_cursor (target k (row_keys (row ∷ rows)))
        (fill (row ∷ rows) (framework.clear table))

  -- The state of `_render_rows` before it shows the details.
  abbrev pub drawn : List Row → Dashboard T → Dashboard T
  drawn visible s = record s {
    visible_keys = row_keys visible;
    table = filled (selected s) visible s.table;
    is_empty = is_nil visible;
  }

  -- `_render_rows`
  unfoldable pub render_rows : Exec (Dashboard T) (Unit {0})
  render_rows s =
      let visible = matching (framework.casefold s.term) s.rows in
      show_visible visible (drawn visible s)

  abbrev pub set_rows : Dict Row → Exec (Dashboard T) (Unit {0})
  set_rows prepared s = render_rows (record s { rows = prepared })

  -- `display_rows`
  unfoldable pub display_rows : List Given → Exec (Dashboard T) (Unit {0})
  display_rows rows =
      gets (λ s. length s.columns) >>= (λ columns. lift (prepare columns 0 rows [])) >>= set_rows

  -- `on_input_changed` of the search field
  unfoldable pub on_search : List ℕ → Exec (Dashboard T) (Unit {0})
  on_search term s = render_rows (record s { term = term })

  -- `on_data_table_row_highlighted`, outside of an update of the rows
  unfoldable pub on_row_highlighted : String → Exec (Dashboard T) (Unit {0})
  on_row_highlighted key s =
      if is_key key (selected s)
      then (show_row key >>= λ _ s'.
            (ok tt, record s' { messages = s'.messages ++ (selection_changed key ∷ []) }))
          s
      else (ok tt, s)

  -- `set_notice` and `set_activity`
  unfoldable pub set_notice : String → List ℕ → Exec (Dashboard T) (Unit {0})
  set_notice state text s = (
    ok tt,
    record s {
      notice = record {
        state = known_state state;
        text = plain_text framework false max_text_length text;
      };
    },
  )

  unfoldable pub set_activity : List ℕ → Exec (Dashboard T) (Unit {0})
  set_activity lines s =
      (ok tt, record s { activity = plain_text framework true max_text_length lines })
