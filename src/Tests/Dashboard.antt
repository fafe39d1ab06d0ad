-- ===== src/Tests/Dashboard.antt =====
-- A dashboard and its requests at concrete inputs.
use dwho.Base.{
  ℕ, suc, ◌≤◌, ◌||◌, ◌&&◌, leb, String, true, false, none, some, List, [], ◌∷◌, ◌++◌, length,
  length-append, ok, raise, value_error, runtime_error, ◌≡◌, refl, arith, ◌∙◌,
}
use dwho.Base.Dict.{lookup, insert}
use dwho.Base.Text.{codes}
use dwho.Dashboard
use dwho.Dashboard.{Framework, Given, table_row, other, Row}
use dwho.Dashboard.Palettes
use dwho.Dashboard.Shell
use dwho.Dashboard.Shell.{display_rows, render_rows, matching, row_keys, selected}
use dwho.Dashboard.Selection.{IsTable, Shown, render_rows-Shown}
use dwho.Dashboard.Rows.{Displayed, display_rows-Displayed}
use dwho.Dashboard.Service
use dwho.Dashboard.Service.{Request, Event, perform, finish, quit, returned, raised, idle, run}
use dwho.Dashboard.Requests.{accepted, ended, has_items, any_cancelled, any_left, run-Serial}

-- A table is the keys of its rows and its cursor.
pub record Grid : Type 0 where
  pub keys : List String
  pub cursor : ℕ

abbrev framework : Framework Grid
framework = record {
  clear = λ t. record { keys = []; cursor = 0 };
  add_row = λ cells key t. record t { keys = t.keys ++ (key ∷ []) };
  move_cursor = λ n t. record t { cursor = n };
  cursor_row = λ t. t.cursor;
  is_printable = λ c. leb 32 c && leb c 126;
  casefold = λ text. text;
}

one_more : (keys : List String) (key : String) → length (keys ++ (key ∷ [])) ≡ suc (length keys)
one_more keys key = length-append keys (key ∷ []) ∙ omega arith

abbrev table : IsTable framework
table = record {
  row_count = λ t. length t.keys;
  count_clear = λ t. refl;
  count_add_row = λ cells key t. one_more t.keys key;
  cursor_row_move = λ n t h. refl;
}

runs : Unit {0}
unfolding lookup insert Palettes.palette_key Palettes.product_theme Dashboard.checked
    Dashboard.first_active Dashboard.make Dashboard.plain_text Shell.plain_row Shell.is_valid_row
    Shell.prepare Shell.matching Shell.fill Shell.selected Shell.target Shell.show_details
    Shell.show_row Shell.show_visible Shell.filled Shell.render_rows Shell.display_rows
    Shell.on_search Service.start Service.end Service.quit_action Service.step Service.run
runs = tt

abbrev start : Dashboard.Dashboard Grid
start = record {
  columns = codes "Host" ∷ [];
  navigation = ("all", codes "All") ∷ [];
  mode = "test";
  theme = record {
    name = "dwho-auton";
    palette = record {
      background = "#081b1c";
      surface = "#0d292b";
      panel = "#103336";
      foreground = "#def1ee";
      primary = "#60d5c6";
      secondary = "#ffb173";
      selection = "#1b504c";
    };
    accent = "#ffb173";
    success = some "#88d4bd";
    warning = some "#efc586";
    error = some "#ff9a9e";
    variables =
        ("primary-muted", "#1b504c")
        ∷ ("block-cursor-background", "#1b504c")
        ∷ ("block-cursor-foreground", "#def1ee")
        ∷ ("block-cursor-blurred-background", "#1b504c")
        ∷ ("block-cursor-blurred-foreground", "#def1ee")
        ∷ ("button-color-foreground", "#081b1c")
        ∷ [];
  };
  rows = [];
  visible_keys = [];
  table = record { keys = []; cursor = 0 };
  term = [];
  shown = (codes "Details", codes "Select a row to view its details.");
  is_empty = true;
  active = true ∷ [];
  notice = record { state = "info"; text = codes "Waiting for data." };
  activity = [];
  messages = [];
}

made :
    Dashboard.make framework
      (λ s. s)
      "auton"
      (codes "Host" ∷ [])
      (("all", codes "All") ∷ [])
      "test"
      0
      none
      start.table
    ≡ ok start
unfolding runs
made = refl

abbrev given : List Given
given =
    table_row (some "a") (codes "web" ∷ []) (codes "A") (codes "up")
    ∷ table_row (some "b") (codes "db" ∷ []) (27 ∷ codes "[B") (codes "up")
    ∷ []

abbrev showing : Dashboard.Dashboard Grid
showing = (display_rows framework given start).1

-- The escape of a title is a space.
title_plain :
    (lookup "b" showing.rows)
    ≡ some
        (record { key = "b"; cells = codes "db" ∷ []; title = codes " [B"; details = codes "up" })
unfolding runs
title_plain = refl

twice_refused : display_rows framework (given ++ given) start ≡ (raise value_error, start)
unfolding runs
twice_refused = refl

display_rows-Displayed_example :
    Displayed framework refl table given start (display_rows framework given start)
display_rows-Displayed_example = display_rows-Displayed framework refl table given start

-- The cursor at the second row, and a search that it matches.
abbrev searching : Dashboard.Dashboard Grid
searching = record start {
  rows =
      ("a", record { key = "a"; cells = codes "web" ∷ []; title = []; details = [] })
      ∷ ("b", record { key = "b"; cells = codes "db" ∷ []; title = codes "B"; details = [] })
      ∷ [];
  visible_keys = "a" ∷ "b" ∷ [];
  table = record { keys = "a" ∷ "b" ∷ []; cursor = 1 };
  term = codes "d";
}

render_rows-Shown_example :
    ((render_rows framework searching).0 ≡ ok tt)
    × ((render_rows framework searching).1.visible_keys
        ≡ row_keys (matching framework (codes "d") searching.rows))
    × Shown framework table
        (selected framework searching)
        (matching framework (codes "d") searching.rows)
        (render_rows framework searching).1
    × ((render_rows framework searching).1.rows ≡ searching.rows)
unfolding lookup
render_rows-Shown_example =
    render_rows-Shown framework table searching ((refl, (refl, tt)), (refl, (refl, tt)))

abbrev request : ℕ → Request ℕ
request n = record { call = n; has_failed = false; label = codes "Reading" }

-- The second request comes while the first one runs.
abbrev events : List (Event ℕ ℕ)
events =
    perform (request 1)
    ∷ perform (request 2)
    ∷ quit
    ∷ finish (raised runtime_error)
    ∷ perform (request 3)
    ∷ []

first_and_third : accepted events idle ≡ request 1 ∷ request 3 ∷ []
unfolding runs
first_and_third = refl

not_left : (run events idle).exited ≡ false
unfolding runs
not_left = refl

run-Serial_example :
    (accepted events idle ≡ ended events idle ++ (run events idle).in_flight)
    × (length (run events idle).in_flight ≤ 1)
    × ((run events idle).busy
        ≡ (has_items (run events idle).in_flight || any_cancelled events idle))
    × (any_left events idle ≡ false)
run-Serial_example = run-Serial events
