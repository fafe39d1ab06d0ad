-- ===== src/Terminal/Typing.antt =====
-- dwho/tui/__init__.py: what `prompt` returns on a sequence of keys.
use dwho.Base.{ℕ, ◌≤◌, Option, none, some, List, [], ◌∷◌, length, ok, ◌≡◌}
use dwho.Base.Exec.{Exec, pure}
use dwho.Terminal.{Key, Screen, Reply, cancelled, accepted, edited, react, prompt_loop, caught}

module _ {W : Type 0} (screen : Screen W) (max_length : ℕ) where
  -- The keys lead an editor from one value to the other without ending it.
  pub data Edited : List Key → List ℕ → List ℕ → Type 0 where
    nothing : {value : List ℕ} → Edited [] value value
    key :
        (k : Key) {keys : List Key} {value next last : List ℕ}
        → react screen max_length k value ≡ edited next
        → Edited keys next last
        → Edited (k ∷ keys) value last

  abbrev IsWithin : ℕ → Reply → Type 0
  IsWithin bound cancelled = Unit
  IsWithin bound accepted = Unit
  IsWithin bound (edited value) = length value ≤ bound

-- What a key that ends an editor makes of its value.
pub data Ending (value : List ℕ) : Reply → Option (List ℕ) → Type 0 where
  escape : Ending value cancelled none
  enter : Ending value accepted (some value)

-- The keys that are still to come, of a screen that takes them in order, and on which drawing fails
-- by errors of curses only.
pub record Keyboard {W : Type 0} (screen : Screen W) : Type 0 where
  pub pending : W → List Key
  pub get_wch :
      (w : W) (k : Key) (keys : List Key)
      → pending w ≡ k ∷ keys
      → ((screen.get_wch w).0 ≡ ok k) × (pending (screen.get_wch w).1 ≡ keys)
  pub erase : (w : W) → pending (screen.erase w) ≡ pending w
  pub refresh : (w : W) → pending (screen.refresh w) ≡ pending w
  pub addnstr :
      (row : ℕ) (text : List ℕ) (n style : ℕ) (w : W)
      → (caught screen (screen.addnstr row text n style w)).0 ≡ ok tt
  pub addnstr_pending :
      (row : ℕ) (text : List ℕ) (n style : ℕ) (w : W)
      → pending (screen.addnstr row text n style w).1 ≡ pending w

module _ {W : Type 0} (screen : Screen W) (keyboard : Keyboard screen) where
  -- It returns, and no key is taken.
  abbrev IsQuiet : Exec W (Unit {0}) → Type 0
  IsQuiet m = (w : W) → ((m w).0 ≡ ok tt) × (keyboard.pending (m w).1 ≡ keyboard.pending w)

  -- What the loop does by its reply to a key.
  abbrev on_reply : ℕ → List ℕ → List ℕ → ℕ → List ℕ → Reply → Exec W (Option (Option (List ℕ)))
  on_reply fuel title help_text max_length value reply = elim reply [
    | cancelled ↦ pure (some none)
    | accepted ↦ pure (some (some value))
    | edited value' ↦ prompt_loop screen fuel title help_text max_length value'
  ]
