-- ===== src/Terminal.antt =====
-- dwho/tui/__init__.py: the prompt and the scrolled views. The curses screen, the wrapping of lines and
-- the table of printable characters are parameters; texts are lists of code points.
pub mod Typing
use dwho.Base.{
  ℕ, zero, suc, ◌+◌, ◌-◌, ◌==◌, ◌&&◌, ◌||◌, min, max, ltb, Bool, true, false, Option, none, some,
  List, [], ◌∷◌, ◌++◌, map, length, take, drop, if◌then◌else◌, Result, Exc, ok, raise,
}
use dwho.Base.Exec.{Exec, pure, gets, ◌>>=◌, ◌>>◌}

-- What `get_wch` returns: a text of one character, or the number of a key.
pub data Key : Type 0 where
  char code : ℕ → Key

pub record Screen (W : Type 0) : Type 0 where
  -- getmaxyx()
  pub size : W → ℕ × ℕ
  pub erase : W → W
  pub refresh : W → W
  -- addnstr(row, 0, text, n, style)
  pub addnstr : ℕ → List ℕ → ℕ → ℕ → Exec W (Unit {0})
  pub get_wch : Exec W Key
  pub is_curses_error : Exc → Bool
  pub is_printable : ℕ → Bool
  -- textwrap.wrap(line, width)
  pub wrap : List ℕ → ℕ → List (List ℕ)
  pub key_enter : ℕ
  pub key_backspace : ℕ
  pub key_down : ℕ
  pub key_up : ℕ

-- MAX_INPUT_LENGTH, CONFIRM_KEYS, CANCEL_KEYS and RETURN_KEYS
abbrev pub max_input_length : ℕ
max_input_length = 1024

abbrev pub confirm_keys : List Key
confirm_keys = char b'y' ∷ []

abbrev pub cancel_keys : List Key
cancel_keys = char 27 ∷ char b'q' ∷ char b'n' ∷ []

abbrev pub return_keys : List Key
return_keys = char b'q' ∷ char 27 ∷ []

abbrev is_key : Key → Key → Bool
is_key (char c) (char d) = c == d
is_key (code c) (code d) = c == d
is_key _ _ = false

-- key in keys
abbrev is_among : Key → List Key → Bool
is_among key [] = false
is_among key (k ∷ keys) = is_key key k || is_among key keys

-- str(text).replace('\n', ' ')
abbrev one_line : List ℕ → List ℕ
one_line text = map (λ c. if c == 10 then b' ' else c) text

-- value[:-1]
abbrev pub drop_last : List ℕ → List ℕ
drop_last [] = []
drop_last (c ∷ []) = []
drop_last (c ∷ d ∷ cs) = c ∷ drop_last (d ∷ cs)

-- What the prompt makes of a key.
pub data Reply : Type 0 where
  cancelled accepted : Reply
  edited : List ℕ → Reply

abbrev or_blank : List (List ℕ) → List (List ℕ)
or_blank [] = [] ∷ []
or_blank (l ∷ ls) = l ∷ ls

module _ {W : Type 0} (screen : Screen W) where
  -- except curses.error: pass
  abbrev caught : Result (Unit {0}) × W → Result (Unit {0}) × W
  caught (ok _, w) = (ok tt, w)
  caught (raise e, w) = if screen.is_curses_error e then (ok tt, w) else (raise e, w)

  -- `put`
  unfoldable pub put : ℕ → List ℕ → ℕ → Exec W (Unit {0})
  put row text style w =
      let (height, width) = screen.size w in
      if ltb row height && ltb 1 width
      then caught (screen.addnstr row (one_line text) (width - 1) style w)
      else (ok tt, w)

  abbrev act : (W → W) → Exec W (Unit {0})
  act f w = (ok tt, f w)

  -- One picture of the prompt.
  unfoldable pub draw_prompt : List ℕ → List ℕ → List ℕ → Exec W (Unit {0})
  draw_prompt title value help_text = do
    act screen.erase
    put 1 title 0
    put 3 value 0
    put 5 help_text 0
    act screen.refresh

  -- The branches of `prompt` on a key.
  unfoldable pub react : ℕ → Key → List ℕ → Reply
  react max_length (char c) value =
      if c == 27
      then cancelled
      else if c == 10 || c == 13
      then accepted
      else if c == 8 || c == 127
      then edited (drop_last value)
      else if screen.is_printable c && ltb (length value) max_length
      then edited (value ++ (c ∷ []))
      else edited value
  react max_length (code k) value =
      if k == screen.key_enter
      then accepted
      else if k == screen.key_backspace
      then edited (drop_last value)
      else edited value

  -- The loop of `prompt`, on fuel; none where the fuel ends before it.
  unfoldable pub prompt_loop : ℕ → List ℕ → List ℕ → ℕ → List ℕ → Exec W (Option (Option (List ℕ)))
  prompt_loop zero title help_text max_length value = pure none
  prompt_loop (suc fuel) title help_text max_length value =
      draw_prompt title value help_text >> screen.get_wch >>= (λ key.
        elim (react max_length key value) [
          | cancelled ↦ pure (some none)
          | accepted ↦ pure (some (some value))
          | edited value' ↦ prompt_loop fuel title help_text max_length value'
        ])

  -- The lines of a source at this width.
  unfoldable pub wrapped : ℕ → List (List ℕ) → List (List ℕ)
  wrapped width [] = []
  wrapped width (line ∷ source) =
      or_blank (screen.wrap line (max 1 (width - 1))) ++ wrapped width source

  -- for row, line in enumerate(..., 1): put(screen, row, line)
  unfoldable pub put_rows : ℕ → List (List ℕ) → Exec W (Unit {0})
  put_rows row [] = pure tt
  put_rows row (line ∷ lines) = put row line 0 >> put_rows (suc row) lines

  -- The last row of a screen of this height, if it has one.
  abbrev put_last : ℕ → List ℕ → Exec W (Unit {0})
  put_last zero text = pure tt
  put_last (suc row) text = put row text 0

  -- The lines that there are room for, and the first one shown at most.
  abbrev pub count_of : ℕ → ℕ
  count_of height = max 1 (height - 2)

  abbrev pub last_offset : ℕ × ℕ → List (List ℕ) → ℕ
  last_offset (height, width) source = length (wrapped width source) - count_of height

  -- One picture of a scrolled view.
  unfoldable pub draw_scroll : ℕ × ℕ → List ℕ → List (List ℕ) → List ℕ → ℕ → Exec W (Unit {0})
  draw_scroll (height, width) title source help_text offset = do
    act screen.erase
    put 0 title 0
    put_rows 1 (take (count_of height) (drop offset (wrapped width source)))
    put_last height help_text
    act screen.refresh

  -- Where a view stands after a key that does not end it.
  unfoldable pub moved : Key → ℕ → ℕ → ℕ
  moved (char c) last offset = offset
  moved (code k) last offset =
      if k == screen.key_down
      then min last (offset + 1)
      else if k == screen.key_up
      then offset - 1
      else offset

  -- The loop of `_scroll`, on fuel; none where the fuel ends before it.
  unfoldable pub scroll_loop :
      ℕ → List ℕ → List (List ℕ) → List ℕ → List Key → List Key → ℕ → Exec W (Option Bool)
  scroll_loop zero title source help_text accepts cancels offset = pure none
  scroll_loop (suc fuel) title source help_text accepts cancels offset =
      gets screen.size >>= (λ size.
        let shown = min offset (last_offset size source) in
        draw_scroll size title source help_text shown >> screen.get_wch >>= (λ key.
          let later =
            scroll_loop fuel title source help_text accepts cancels
              (moved key (last_offset size source) shown) in
          if is_among key accepts
          then pure (some true)
          else if is_among key cancels
          then pure (some false)
          else later))

-- `prompt`, `view_details` and `confirm`, for at most so many keys
unfoldable pub prompt :
    {W : Type 0} → Screen W → ℕ → List ℕ → List ℕ → List ℕ → ℕ → Exec W (Option (Option (List ℕ)))
prompt screen fuel title initial help_text max_length =
    prompt_loop screen fuel title help_text max_length initial

unfoldable pub confirm :
    {W : Type 0}
    → Screen W
    → ℕ
    → List ℕ
    → List (List ℕ)
    → List ℕ
    → List Key
    → List Key
    → Exec W (Option Bool)
confirm screen fuel title source help_text accepts cancels =
    scroll_loop screen fuel title source help_text accepts cancels 0

abbrev without_answer : Option Bool → Option (Unit {0})
without_answer none = none
without_answer (some _) = some tt

unfoldable pub view_details :
    {W : Type 0} → Screen W → ℕ → List ℕ → List (List ℕ) → List ℕ → Exec W (Option (Unit {0}))
view_details screen fuel title source help_text =
    scroll_loop screen fuel title source help_text [] return_keys 0
    >>= (λ answer. pure (without_answer answer))
