-- ===== src/Dashboard/Palettes.antt =====
-- dwho/tui/textual/theme.py: the labels of states and modes, and the palette of a product.
use dwho.Base.{
  String, ◌&◌, Option, none, some, [], ◌∷◌, if◌then◌else◌, Result, ok, raise, value_error, is_some,
}
use dwho.Base.Dict.{Dict, lookup}

abbrev pub state_labels : Dict String
state_labels =
    ("info", "INFO")
    ∷ ("accepted", "ACCEPTED")
    ∷ ("queued", "QUEUED")
    ∷ ("running", "IN PROGRESS")
    ∷ ("success", "SUCCESS")
    ∷ ("warning", "WARNING")
    ∷ ("unknown", "UNKNOWN")
    ∷ ("failure", "FAILED")
    ∷ ("denied", "DENIED")
    ∷ []

abbrev pub mode_labels : Dict String
mode_labels =
    ("read_only", "READ ONLY") ∷ ("test", "TEST MODE") ∷ ("interactive", "INTERACTIVE") ∷ []

-- STATE_COLORS
abbrev pub state_colors : Dict String
state_colors =
    ("info", "#85bfff")
    ∷ ("accepted", "#85bfff")
    ∷ ("queued", "#85bfff")
    ∷ ("running", "#b6adff")
    ∷ ("success", "#88d4bd")
    ∷ ("warning", "#efc586")
    ∷ ("unknown", "#efc586")
    ∷ ("failure", "#ff9a9e")
    ∷ ("denied", "#ff9a9e")
    ∷ []

pub record Palette : Type 0 where
  pub background : String
  pub surface : String
  pub panel : String
  pub foreground : String
  pub primary : String
  pub secondary : String
  pub selection : String

abbrev palette_of : String → String → String → String → String → String → String → Palette
palette_of background surface panel foreground primary secondary selection = record {
  background = background;
  surface = surface;
  panel = panel;
  foreground = foreground;
  primary = primary;
  secondary = secondary;
  selection = selection;
}

-- PALETTES
abbrev pub palettes : Dict Palette
palettes =
    ("default", palette_of "#0a1220" "#101f34" "#102137" "#d6e2f3" "#83cfff" "#afd6ff" "#204c73")
    ∷ ("atraxis", palette_of "#080f20" "#0e1b32" "#10233a" "#dcecf5" "#64d9f5" "#a6cfff" "#16435c")
    ∷ ("auton", palette_of "#081b1c" "#0d292b" "#103336" "#def1ee" "#60d5c6" "#ffb173" "#1b504c")
    ∷ (
      "monit-docker",
      palette_of "#111922" "#1a2734" "#203140" "#e0e8ef" "#92bad6" "#bdd0e0" "#354f65",
    )
    ∷ (
      "galliflow",
      palette_of "#161022" "#241a35" "#2b2040" "#eee5f7" "#c1a0ef" "#dac3f5" "#503770",
    )
    ∷ ("certlord", palette_of "#191816" "#282620" "#333026" "#f0eadb" "#e2c16d" "#f0d9a0" "#51462b")
    ∷ []

-- textual.theme.Theme, as `product_theme` fills it
pub record Theme : Type 0 where
  pub name : String
  pub palette : Palette
  pub accent : String
  pub success : Option String
  pub warning : Option String
  pub error : Option String
  pub variables : Dict String

-- key, of a product without or with a palette of its own
unfoldable pub palette_key : (String → String) → String → Option String → String
palette_key casefold product none =
    if is_some (lookup (casefold product) palettes) then casefold product else "default"
palette_key casefold product (some palette) = palette

abbrev theme_of : String → Palette → Theme
theme_of key p = record {
  name = "dwho-" & key;
  palette = p;
  accent = p.secondary;
  success = lookup "success" state_colors;
  warning = lookup "warning" state_colors;
  error = lookup "failure" state_colors;
  variables =
      ("primary-muted", p.selection)
      ∷ ("block-cursor-background", p.selection)
      ∷ ("block-cursor-foreground", p.foreground)
      ∷ ("block-cursor-blurred-background", p.selection)
      ∷ ("block-cursor-blurred-foreground", p.foreground)
      ∷ ("button-color-foreground", p.background)
      ∷ [];
}

abbrev found_theme : String → Option Palette → Result Theme
found_theme key none = raise value_error
found_theme key (some p) = ok (theme_of key p)

-- `product_theme`
unfoldable pub product_theme : (String → String) → String → Option String → Result Theme
product_theme casefold product palette =
    let key = palette_key casefold product palette in found_theme key (lookup key palettes)
