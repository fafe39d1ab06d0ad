-- ===== src/Tests/Terminal.antt =====
-- The prompt and a scrolled view at concrete inputs.
use dwho.Base.{ℕ, true, false, some, List, [], ◌∷◌, leb, ok, raise, foreign, ◌≡◌, refl}
use dwho.Base.Text.{codes}
use dwho.Terminal
use dwho.Terminal.{Key, char, code, Screen, prompt, confirm, confirm_keys, cancel_keys}
use dwho.Terminal.Typing.{Keyboard}

runs : Unit {0}
unfolding Terminal.put Terminal.draw_prompt Terminal.react Terminal.prompt_loop Terminal.prompt
    Terminal.wrapped Terminal.put_rows Terminal.draw_scroll Terminal.moved Terminal.scroll_loop
    Terminal.confirm
runs = tt

-- The keys to come, and the texts that were drawn.
pub record Desk : Type 0 where
  pub keys : List Key
  pub drawn : List (ℕ × List ℕ)

abbrev screen : Screen Desk
screen = record {
  size = λ w. (3, 10);
  erase = λ w. record w { drawn = [] };
  refresh = λ w. w;
  addnstr = λ row text n style w. (ok tt, record w { drawn = (row, text) ∷ w.drawn });
  get_wch = λ w. elim w.keys [
    | [] ↦ (raise (foreign 0), w)
    | k ∷ keys ↦ (ok k, record w { keys = keys })
  ];
  is_curses_error = λ e. false;
  is_printable = λ c. leb 32 c;
  wrap = λ line width. line ∷ [];
  key_enter = 343;
  key_backspace = 263;
  key_down = 258;
  key_up = 259;
}

unfoldable keyboard : Keyboard screen
unfolding runs
keyboard = record {
  pending = λ w. w.keys;
  get_wch = λ w k keys h. (rw h, rw h);
  erase = λ w. refl;
  refresh = λ w. refl;
  addnstr = λ row text n style w. refl;
  addnstr_pending = λ row text n style w. refl;
}

abbrev typing : Desk
typing = record {
  keys = char b'h' ∷ char b'o' ∷ code 263 ∷ char b'i' ∷ char 10 ∷ char b'q' ∷ [];
  drawn = [];
}

-- A view with room for one line: down twice stops at the last line, which is shown when `y` is hit.
abbrev asking : Desk
asking = record { keys = code 258 ∷ code 258 ∷ char b'y' ∷ []; drawn = [] }

confirmed :
    confirm screen 3
      (codes "Sure")
      (codes "one" ∷ codes "two" ∷ [])
      (codes "?")
      confirm_keys
      cancel_keys
      asking
    ≡ (
      ok (some true),
      record { keys = []; drawn = (2, codes "?") ∷ (1, codes "two") ∷ (0, codes "Sure") ∷ [] },
    )
unfolding runs
confirmed = refl
