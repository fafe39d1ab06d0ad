-- ===== src/Dashboard.antt =====
-- dwho/tui/textual (dashboard.py, widgets.py, theme.py, service.py): the shell of a dashboard.
-- `Palettes` is theme.py, `Shell` the methods of DashboardApp, and `Service` ServiceDashboard; `Plain`,
-- `Rows` and `Selection` are about what is shown, and `Requests` about the requests. The widgets of the
-- framework are parameters. Texts are lists of code points, as `str` gives them.
pub mod Palettes
pub mod Shell
pub mod Selection
pub mod Service
pub mod Requests
pub mod Plain
pub mod Rows
use dwho.Base.{
  ℕ, suc, ◌==◌, ◌&&◌, ◌||◌, not, ltb, leb, String, Bool, true, false, Option, none, some, List, [],
  ◌∷◌, ◌++◌, map, length, take, get_elem?, if◌then◌else◌, is_some, str_eq, Result, ok, raise,
  value_error, key_error, foreign, ◌>>=◌ as and_then, guard,
}
use dwho.Base.Dict.{Dict, lookup, insert, is_in}
use dwho.Base.Exec.{Exec, pure, lift, gets, ◌>>=◌, ◌>>◌}
use dwho.Base.Text.{codes, infix_of}
use dwho.Dashboard.Palettes.{mode_labels, state_labels, Theme, product_theme}

-- The limits of dashboard.py and widgets.py.
abbrev pub max_text_length : ℕ
max_text_length = 65536

abbrev pub max_rows : ℕ
max_rows = 10000

abbrev pub max_columns : ℕ
max_columns = 20

abbrev pub max_navigation_items : ℕ
max_navigation_items = 20

abbrev pub max_metrics : ℕ
max_metrics = 4

abbrev pub max_cell_length : ℕ
max_cell_length = 1024

abbrev pub max_title_length : ℕ
max_title_length = 256

-- TableRow
pub record Row : Type 0 where
  pub key : String
  pub cells : List (List ℕ)
  pub title : List ℕ
  pub details : List ℕ

-- What a caller gives for a row: a TableRow, whose key may be no text, or something else.
pub data Given : Type 0 where
  table_row : Option String → List (List ℕ) → List ℕ → List ℕ → Given
  other : Given

-- What the framework does for a dashboard: DataTable, str.isprintable and str.casefold.
pub record Framework (T : Type 0) : Type 0 where
  pub clear : T → T
  pub add_row : List (List ℕ) → String → T → T
  pub move_cursor : ℕ → T → T
  pub cursor_row : T → ℕ
  pub is_printable : ℕ → Bool
  pub casefold : List ℕ → List ℕ

-- StatusLine
pub record Status : Type 0 where
  pub state : String
  pub text : List ℕ

pub data Message : Type 0 where
  navigation_requested selection_changed : String → Message

pub record Dashboard (T : Type 0) : Type 0 where
  pub columns : List (List ℕ)
  pub navigation : List (String × List ℕ)
  pub mode : String
  -- register_theme(theme)
  pub theme : Theme
  pub rows : Dict Row
  pub visible_keys : List String
  pub table : T
  -- The value of the search field.
  pub term : List ℕ
  -- The title and the text of the detail panel.
  pub shown : List ℕ × List ℕ
  -- Whether the note on no entries is displayed.
  pub is_empty : Bool
  -- Which navigation button has the class dw-active.
  pub active : List Bool
  pub notice : Status
  pub activity : List ℕ
  pub messages : List Message

abbrev pub are_distinct : List String → Bool
are_distinct [] = true
are_distinct (k ∷ ks) = not (is_in k ks) && are_distinct ks

abbrev pub keys_of : List (String × List ℕ) → List String
keys_of [] = []
keys_of ((k, _) ∷ nav) = k ∷ keys_of nav

-- The checks of `__init__`, and its theme.
unfoldable pub checked :
    (String → String)
    → String
    → List (List ℕ)
    → List (String × List ℕ)
    → String
    → ℕ
    → Option String
    → Result Theme
checked casefold product columns navigation mode metrics palette =
    and_then (guard (is_some (lookup mode mode_labels)) value_error) (λ _.
      and_then (guard (leb 1 (length columns) && leb (length columns) max_columns) value_error)
        (λ _.
          and_then
            (guard
              (leb (length navigation) max_navigation_items && are_distinct (keys_of navigation))
              value_error)
            (λ _.
              and_then (guard (leb metrics max_metrics) value_error)
                (λ _. product_theme casefold product palette))))

-- The first button is active in what `compose` yields.
unfoldable pub first_active : List (String × List ℕ) → List Bool
first_active [] = []
first_active (_ ∷ nav) = true ∷ map (λ _. false) nav

-- state if state in STATE_LABELS else 'unknown'
unfoldable pub known_state : String → String
known_state state = if is_some (lookup state state_labels) then state else "unknown"

module _ {T : Type 0} (framework : Framework T) where
  abbrev pub plain_char : Bool → ℕ → ℕ
  plain_char multiline c = if framework.is_printable c || (multiline && c == 10) then c else b' '

  -- `plain_text`
  unfoldable pub plain_text : Bool → ℕ → List ℕ → List ℕ
  plain_text multiline limit value = map (plain_char multiline) (take limit value)

  -- `__init__` and `compose`
  unfoldable pub make :
      (String → String)
      → String
      → List (List ℕ)
      → List (String × List ℕ)
      → String
      → ℕ
      → Option String
      → T
      → Result (Dashboard T)
  make casefold product columns navigation mode metrics palette table =
      and_then (checked casefold product columns navigation mode metrics palette) (λ theme.
        ok (record {
          columns = columns;
          navigation = navigation;
          mode = mode;
          theme = theme;
          rows = [];
          visible_keys = [];
          table = table;
          term = [];
          shown = (codes "Details", codes "Select a row to view its details.");
          is_empty = true;
          active = first_active navigation;
          notice = record { state = "info"; text = codes "Waiting for data." };
          activity = [];
          messages = [];
        }))
