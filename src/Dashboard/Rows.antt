-- ===== src/Dashboard/Rows.antt =====
-- dwho/tui/textual/dashboard.py: the rows that `display_rows` keeps.
use mathlib.Core.List.{append-nil, append_assoc}
use dwho.Base.{
  ℕ, suc, ◌≤◌, ◌<◌, String, Bool, true, false, none, some, List, [], ◌∷◌, ◌++◌, length,
  length-append, if◌then◌else◌, Result, Result-cases, Exc, ok, raise, value_error, ok-injective,
  ◌≡◌, refl, arith, All, sym, ap, ◌∙◌, subst, Option-cases, Bool-cases, inl, inr, ◌⊎◌,
}
use dwho.Base.Dict.{Dict, lookup, insert, IsDistinct, insert-IsDistinct}
use dwho.Base.Exec.{continue}
use dwho.Dashboard.{max_rows, Row, Given, table_row, other, Framework, Dashboard}
use dwho.Dashboard.Shell.{
  plain_row, is_valid_row, prepare, display_rows, set_rows, matching, selected,
}
use dwho.Dashboard.Plain.{IsPlainRow, plain_rows, plain_row-IsPlainRow}
use dwho.Dashboard.Selection.{IsTable, Shown, render_rows-Shown}

module _ {T : Type 0} (framework : Framework T) where
  module _ (space : framework.is_printable b' ' ≡ true) where
    -- What the rows that are prepared so far satisfy.
    abbrev IsPrepared : ℕ → Dict Row → Type 0
    IsPrepared columns d =
        IsDistinct d × (length d ≤ max_rows) × All (IsPlainRow framework columns) d

    insert-new :
        (key : String) (row : Row) (d : Dict Row)
        → lookup key d ≡ none
        → insert key row d ≡ d ++ ((key, row) ∷ [])
    unfolding insert lookup
    insert-new key row [] h = refl
    insert-new key row ((k, r) ∷ d) h = ground (arith, insert-new key row d)

    All-append :
        {A : Type 0} (P : A → Type 0) (xs ys : List A) → All P xs → All P ys → All P (xs ++ ys)
    All-append P [] ys hx hy = hy
    All-append P (x ∷ xs) ys hx hy = (hx.0, All-append P xs ys hx.1 hy)

    is_valid_row-parts :
        (columns index : ℕ) (key : String) (cells : List (List ℕ)) (d : Dict Row)
        → is_valid_row framework columns index key cells d ≡ true
        → (index < max_rows) × (lookup key d ≡ none)
    unfolding is_valid_row
    is_valid_row-parts columns index key cells d valid = (
      ground (arith, valid),
      elim (Option-cases (lookup key d)) [ inl e ↦ e | inr (r, e) ↦ ground (arith, valid, e) ],
    )

    prepare-IsPrepared :
        (columns : ℕ) (rows : List Given) (d : Dict Row) {d' : Dict Row}
        → IsPrepared columns d
        → prepare framework columns (length d) rows d ≡ ok d'
        → IsPrepared columns d' × (d' ≡ d ++ plain_rows framework rows)
    unfolding prepare
    prepare-IsPrepared columns [] d prepared h =
        let e = ok-injective h in
        (subst (IsPrepared columns) e prepared, sym e ∙ sym (append-nil d))
    prepare-IsPrepared columns (other ∷ rows) d prepared h = cc
    prepare-IsPrepared columns (table_row none cells title details ∷ rows) d prepared h = cc
    prepare-IsPrepared columns (table_row (some key) cells title details ∷ rows) d {d'} prepared h =
        by_test (is_valid_row framework columns (length d) key cells d) refl h
          (prepare-IsPrepared columns rows (insert key row d) {d' = d'})
      where
        row : Row
        row = plain_row framework key cells title details

        Goal : Type 0
        Goal = IsPrepared columns d' × (d' ≡ d ++ ((key, row) ∷ plain_rows framework rows))

        rest : ℕ → Result (Dict Row)
        rest n = prepare framework columns n rows (insert key row d)

        by_test :
            (b : Bool)
            → is_valid_row framework columns (length d) key cells d ≡ b
            → (if b then rest (suc (length d)) else raise value_error) ≡ ok d'
            → (IsPrepared columns (insert key row d)
                → rest (length (insert key row d)) ≡ ok d'
                → IsPrepared columns d' × (d' ≡ insert key row d ++ plain_rows framework rows))
            → Goal
        by_test false invalid h' others = cc
        by_test true valid h' others =
            let (below, new) = is_valid_row-parts columns (length d) key cells d valid in
            let appended = insert-new key row d new in
            let plain =
              plain_row-IsPlainRow framework space columns (length d) key cells title details d
                valid in
            let grown : length (insert key row d) ≡ suc (length d) =
              ap length appended ∙ omega (arith, length-append {0} d ((key, row) ∷ [])) in
            let kept : IsPrepared columns (insert key row d) = (
              insert-IsDistinct key row d prepared.0,
              omega (arith, grown, below),
              subst (All (IsPlainRow framework columns)) (sym appended) (
                  All-append (IsPlainRow framework columns) d ((key, row) ∷ []) prepared.2
                    (plain, tt)),
            ) in
            let (done, e) = others kept (ap rest grown ∙ h') in
            (
              done,
              e
                  ∙ (ap (λ x. x ++ plain_rows framework rows) appended
                      ∙ append_assoc d ((key, row) ∷ []) (plain_rows framework rows)),
            )

    prepare-raises :
        (columns index : ℕ) (rows : List Given) (d : Dict Row) {e : Exc}
        → prepare framework columns index rows d ≡ raise e
        → e ≡ value_error
    unfolding prepare
    prepare-raises columns index [] d h = cc
    prepare-raises columns index (other ∷ rows) d h = cc
    prepare-raises columns index (table_row none cells title details ∷ rows) d h = cc
    prepare-raises columns index (table_row (some key) cells title details ∷ rows) d h =
        elim (Bool-cases (is_valid_row framework columns index key cells d)) [
          | inl valid ↦
              prepare-raises columns (suc index) rows
                (insert key (plain_row framework key cells title details) d) (rw valid at h)
          | inr invalid ↦ let h' = rw invalid at h in cc
        ]

    All-keyed :
        (columns : ℕ) (d : Dict Row)
        → All (IsPlainRow framework columns) d
        → All (λ e. e.1.key ≡ e.0) d
    All-keyed columns [] h = tt
    All-keyed columns ((key, row) ∷ d) h = (h.0.0, All-keyed columns d h.1)

    -- How `display_rows` ends: refused, or with these rows shown.
    abbrev pub Displayed :
        IsTable framework → List Given → Dashboard T → Result (Unit {0}) × Dashboard T → Type 0
    Displayed table given s out =
        (out ≡ (raise value_error, s))
        ⊎ ((out.0 ≡ ok tt)
            × (out.1.rows ≡ plain_rows framework given)
            × IsPrepared (length s.columns) (plain_rows framework given)
            × Shown framework table (selected framework s)
                (matching framework (framework.casefold s.term) (plain_rows framework given)) out.1)

    -- `display_rows` either raises ValueError and changes nothing, or it returns. Then the rows are
    -- those that were given, in their order and made plain: at most as many as the limit, no key
    -- twice, each key of a length within its limits, as many cells as columns, and no text longer than
    -- its limit or with a character that is not printable, but ends of lines in the details. The
    -- view is that of these rows.
    pub display_rows-Displayed :
        (table : IsTable framework) (given : List Given) (s : Dashboard T)
        → Displayed table given s (display_rows framework given s)
    unfolding display_rows selected
    display_rows-Displayed table given s =
        elim (Result-cases (prepare framework (length s.columns) 0 given [])) [
          | inl (d, e) ↦
              let (prepared, same) =
                prepare-IsPrepared (length s.columns) given [] (tt, omega arith, tt) e in
              subst Ends (sym (e ∙ ap ok same))
                (inr (shown_rows (subst (IsPrepared (length s.columns)) same prepared)))
          | inr (error, e) ↦
              subst Ends (sym (e ∙ ap raise (prepare-raises (length s.columns) 0 given [] e)))
                (inl refl)
        ]
      where
        Ends : Result (Dict Row) → Type 0
        Ends out = Displayed table given s (continue out (set_rows framework) s)

        shown_rows :
            IsPrepared (length s.columns) (plain_rows framework given)
            → ((set_rows framework (plain_rows framework given) s).0 ≡ ok tt)
              × ((set_rows framework (plain_rows framework given) s).1.rows
                  ≡ plain_rows framework given)
              × IsPrepared (length s.columns) (plain_rows framework given)
              × Shown framework table
                  (selected framework s)
                  (matching framework (framework.casefold s.term) (plain_rows framework given))
                  (set_rows framework (plain_rows framework given) s).1
        shown_rows prepared =
            let (returned, _, shown, rows) =
              render_rows-Shown framework table (record s { rows = plain_rows framework given })
                (
                  prepared.0,
                  All-keyed (length s.columns) (plain_rows framework given) prepared.2,
                ) in
            (returned, rows, prepared, shown)
