-- ===== src/Sql/Like.antt =====
-- dwho/classes/objects.py: the pattern of `_prepare_cond_like`, read as SQL reads it: `%` stands
-- for any text, `_` for any character, and behind the escape character `!` each stands for itself.
-- Characters are compared as they are; a collation of the database may identify more of them.
use Prim.Native.Char.{code}
use mathlib.Core.List.{append-nil}
use mathlib.Core.Bool.{Bool, true, false, ◌&&◌, not}
use dwho.Base.{
  subst, ℕ, String, List, [], ◌∷◌, ◌++◌, Option, none, some, ◌≡◌, refl, arith, ap, ◌∙◌, sym,
  Bool-cases, inl, inr, ◌==◌, ◌↔◌, if◌then◌else◌,
}
use dwho.Base.Text.{codes}
use dwho.Sql.Words.{replace, codes-append}
use dwho.Sql.Clauses.{escape_like, like_pattern}

pub data Glob : Type 0 where
  any_text : Glob
  any_one : Glob
  literal : ℕ → Glob

abbrev glob_of : Bool → ℕ → Glob
glob_of true c = literal c
glob_of false c = if c == b'%' then any_text else if c == b'_' then any_one else literal c

abbrev add_glob : Glob → Option (List Glob) → Option (List Glob)
add_glob g none = none
add_glob g (some gs) = some (g ∷ gs)

-- The flag says that an escape character came just before; a pattern cannot end behind one.
unfoldable pub read_glob : Bool → List ℕ → Option (List Glob)
read_glob true [] = none
read_glob false [] = some []
read_glob escaped (c ∷ cs) =
    let opens = not escaped && c == b'!' in
    let rest = read_glob opens cs in if opens then rest else add_glob (glob_of escaped c) rest

-- The text matches the pattern.
abbrev pub Matches : List Glob → List ℕ → Type 0
Matches [] t = t ≡ []
Matches (any_text ∷ gs) t = (a : List ℕ) × (b : List ℕ) × (t ≡ a ++ b) × Matches gs b
Matches (_ ∷ gs) [] = ⊥
Matches (any_one ∷ gs) (x ∷ t) = Matches gs t
Matches (literal c ∷ gs) (x ∷ t) = (x ≡ c) × Matches gs t

abbrev replace_codes : ℕ → List ℕ → List ℕ → List ℕ
replace_codes c r [] = []
replace_codes c r (x ∷ xs) = (if x == c then r else (x ∷ [])) ++ replace_codes c r xs

codes-replace : (c : ℕ) (r s : String) → codes (replace c r s) ≡ replace_codes c (codes r) (codes s)
unfolding replace
codes-replace c r String.[] = refl
codes-replace c r (String.◌∷◌ ch s) = elim (Bool-cases (code ch == c)) [
  | inl same ↦ rw (same, codes-append, codes-replace c r s) refl
  | inr other ↦ rw (other, codes-append, codes-replace c r s) refl
]

abbrev escape_codes : List ℕ → List ℕ
escape_codes xs =
    replace_codes b'_' (b'!' ∷ b'_' ∷ [])
      (replace_codes b'%' (b'!' ∷ b'%' ∷ []) (replace_codes b'!' (b'!' ∷ b'!' ∷ []) xs))

codes-escape_like : (s : String) → codes (escape_like s) ≡ escape_codes (codes s)
unfolding escape_like
codes-escape_like s =
    let bangs = replace b'!' "!!" s in
    let percents = replace b'%' "!%" bangs in
    rw (codes-replace b'_' "!_" percents, codes-replace b'%' "!%" bangs, codes-replace b'!' "!!" s)
      refl

eq_of_test : (a b : ℕ) → (a == b) ≡ true → a ≡ b
eq_of_test a b h = ground arith

abbrev add_literals : List ℕ → Option (List Glob) → Option (List Glob)
add_literals [] rest = rest
add_literals (c ∷ cs) rest = add_glob (literal c) (add_literals cs rest)

-- Reading the pattern of a text that starts with `c` gives `c` back.
abbrev ReadsBack : ℕ → List ℕ → List ℕ → Type 0
ReadsBack c cs rest =
    read_glob false (escape_codes (c ∷ cs) ++ rest) ≡ add_literals (c ∷ cs) (read_glob false rest)

read_escaped :
    (cs rest : List ℕ)
    → read_glob false (escape_codes cs ++ rest) ≡ add_literals cs (read_glob false rest)
unfolding read_glob
read_escaped [] rest = refl
read_escaped (c ∷ cs) rest =
    let ih = read_escaped cs rest in
    let special = λ (d : ℕ) (e : (c == d) ≡ true) (h : ReadsBack d cs rest).
      subst (λ c. ReadsBack c cs rest) (sym (eq_of_test c d e)) h in
    elim (Bool-cases (c == b'!')) [
      | inl bang ↦ special b'!' bang (ap (add_glob (literal b'!')) ih)
      | inr no_bang ↦ elim (Bool-cases (c == b'%')) [
        | inl percent ↦ special b'%' percent (ap (add_glob (literal b'%')) ih)
        | inr no_percent ↦ elim (Bool-cases (c == b'_')) [
          | inl under ↦ special b'_' under (ap (add_glob (literal b'_')) ih)
          | inr no_under ↦
              rw (no_bang, no_percent, no_under, no_bang, no_percent, no_under)
                (ap (add_glob (literal c)) ih)
        ]
      ]
    ]

-- The characters of a text, and then anything.
abbrev literals : List ℕ → List Glob
literals [] = any_text ∷ []
literals (c ∷ cs) = literal c ∷ literals cs

add_literals-eq : (cs : List ℕ) → add_literals cs (some (any_text ∷ [])) ≡ some (literals cs)
add_literals-eq [] = refl
add_literals-eq (c ∷ cs) = rw (add_literals-eq cs) refl

read_pattern :
    (s : String) → read_glob false (codes (like_pattern s)) ≡ some (any_text ∷ literals (codes s))
unfolding like_pattern read_glob
read_pattern s =
    let back = read_escaped (codes s) (b'%' ∷ []) in
    rw (codes-append, codes-append, codes-escape_like s)
      (ap (add_glob any_text) (back ∙ add_literals-eq (codes s)))

literals-Matches : (cs t : List ℕ) → Matches (literals cs) t → (b : List ℕ) × (t ≡ cs ++ b)
literals-Matches [] t (a, b, e, e') = (t, refl)
literals-Matches (c ∷ cs) [] h = absurd h
literals-Matches (c ∷ cs) (x ∷ t) (e, h) = let (b, e') = literals-Matches cs t h in (b, cc)

Matches-literals : (cs b : List ℕ) → Matches (literals cs) (cs ++ b)
Matches-literals [] b = (b, [], sym (append-nil b), refl)
Matches-literals (c ∷ cs) b = (refl, Matches-literals cs b)

-- The text has `s` in it.
abbrev pub IsInside : List ℕ → List ℕ → Type 0
IsInside s t = (a : List ℕ) × (b : List ℕ) × (t ≡ a ++ (s ++ b))

-- The pattern of a search can be read whatever the searched text holds, and exactly the texts with
-- that text in them match it: no character of it works as a wildcard.
pub like_pattern-Matches :
    (s : String) (t : List ℕ)
    → (gs : List Glob) × (read_glob false (codes (like_pattern s)) ≡ some gs)
      × (Matches gs t ↔ IsInside (codes s) t)
like_pattern-Matches s t = (any_text ∷ literals (codes s), read_pattern s, (there, back))
  where
    there : Matches (any_text ∷ literals (codes s)) t → IsInside (codes s) t
    there (a, b, e, h) = let (c, e') = literals-Matches (codes s) b h in (a, c, e ∙ ap (◌++◌ a) e')

    back : IsInside (codes s) t → Matches (any_text ∷ literals (codes s)) t
    back (a, c, e) = (a, codes s ++ c, e, Matches-literals (codes s) c)
