-- ===== src/Sql/Words.antt =====
-- dwho/classes/objects.py: column identifiers, and the text operations of the builders.
use Prim.Native.Char.{code}
use Prim.Native.String.{String}
use text.Mathlib.TextLemmas.{nil-append, cons-append}
use dwho.Base.{
  ℕ, zero, suc, ◌+◌, ◌-◌, ◌/◌, ◌%◌, ◌&◌, Bool, true, false, ◌&&◌, ◌||◌, List, [], ◌∷◌, ◌++◌, ◌≡◌,
  refl, arith, leb, ltb, ◌==◌, if◌then◌else◌, ap, Bool-cases, inl, inr,
}
use mathlib.Core.Bool.{false≢true}
use dwho.Base.Text.{codes, is_alpha, is_word}

-- The regular expression of `_identifier`; the flag says that a name has to begin here.
unfoldable pub identifier_from : Bool → List ℕ → Bool
identifier_from true [] = false
identifier_from false [] = true
identifier_from true (c ∷ cs) = (is_alpha c || c == b'_') && identifier_from false cs
identifier_from false (c ∷ cs) = (is_word c || c == b'.') && identifier_from (c == b'.') cs

unfoldable pub is_identifier : String → Bool
unfolding identifier_from
is_identifier s = identifier_from true (codes s)

-- sep.join(parts)
unfoldable pub join : String → List String → String
join sep [] = ""
join sep (s ∷ []) = s
join sep (s ∷ t ∷ ts) = s & (sep & join sep (t ∷ ts))

-- ["?"] * n
unfoldable pub marks_list : ℕ → List String
marks_list zero = []
marks_list (suc n) = "?" ∷ marks_list n

-- s.replace(c, r), for a text c of one character
unfoldable pub replace : ℕ → String → String → String
replace c r String.[] = ""
replace c r (String.◌∷◌ ch s) =
    (if code ch == c then r else String.◌∷◌ ch String.[]) & replace c r s

-- The one-character texts that str.upper() takes to A, C, D, E or S.
abbrev pub upper_code : ℕ → ℕ
upper_code c = if leb b'a' c && leb c b'z' then c - 32 else if c == 383 then b'S' else c

unfoldable pub upper : List ℕ → List ℕ
upper [] = []
upper (c ∷ cs) = upper_code c ∷ upper cs

abbrev pub codes_eq : List ℕ → List ℕ → Bool
codes_eq [] [] = true
codes_eq (a ∷ as') (b ∷ bs) = a == b && codes_eq as' bs
codes_eq _ _ = false

abbrev pub pick : List String → ℕ → String
pick [] n = "9"
pick (s ∷ ss) zero = s
pick (s ∷ ss) (suc n) = pick ss n

abbrev pub digit_texts : List String
digit_texts = "0" ∷ "1" ∷ "2" ∷ "3" ∷ "4" ∷ "5" ∷ "6" ∷ "7" ∷ "8" ∷ []

-- "%d" % n
unfoldable pub digit : ℕ → String
digit n = pick digit_texts n

unfoldable pub decimal_from : ℕ → ℕ → String
decimal_from zero n = ""
decimal_from (suc fuel) n =
    let high = decimal_from fuel (n / 10) in if ltb n 10 then digit n else high & digit (n % 10)

-- Fuel of one round more than the number has digits.
unfoldable pub decimal : ℕ → String
unfolding decimal_from digit
decimal n = decimal_from (suc n) n

pub codes-append : (s t : String) → codes (s & t) ≡ codes s ++ codes t
codes-append String.[] t = rw nil-append
codes-append (String.◌∷◌ c s) t = rw cons-append (ap (◌∷◌ (code c)) (codes-append s t))

-- How many `?` a text has.
unfoldable pub marks : List ℕ → ℕ
marks [] = 0
marks (c ∷ cs) = (if c == b'?' then 1 else 0) + marks cs

pub marks-append : (xs ys : List ℕ) → marks (xs ++ ys) ≡ marks xs + marks ys
unfolding marks
marks-append [] ys = omega arith
marks-append (c ∷ xs) ys = omega (arith, marks-append xs ys)

pub marks-text : (s t : String) → marks (codes (s & t)) ≡ marks (codes s) + marks (codes t)
marks-text s t = rw codes-append (marks-append (codes s) (codes t))

eq_of_test : (a b : ℕ) → (a == b) ≡ true → a ≡ b
eq_of_test a b h = ground arith

and_parts : (a b : Bool) → (a && b) ≡ true → (a ≡ true) × (b ≡ true)
and_parts true b h = (refl, h)
and_parts false b h = cc

no_mark_at_start : (c : ℕ) → (is_alpha c || c == b'_') ≡ true → marks (c ∷ []) ≡ 0
unfolding marks
no_mark_at_start c h = elim (Bool-cases (c == b'?')) [
  | inl e ↦ absurd (false≢true (rw (eq_of_test c b'?' e) at h))
  | inr e ↦ rw e
]

no_mark_inside : (c : ℕ) → (is_word c || c == b'.') ≡ true → marks (c ∷ []) ≡ 0
unfolding marks
no_mark_inside c h = elim (Bool-cases (c == b'?')) [
  | inl e ↦ absurd (false≢true (rw (eq_of_test c b'?' e) at h))
  | inr e ↦ rw e
]

marks-cons : (c : ℕ) (cs : List ℕ) → marks (c ∷ cs) ≡ marks (c ∷ []) + marks cs
unfolding marks
marks-cons c cs = omega arith

marks-identifier_from : (b : Bool) (cs : List ℕ) → identifier_from b cs ≡ true → marks cs ≡ 0
unfolding identifier_from
marks-identifier_from true [] h = cc
marks-identifier_from false [] h = unfold marks in refl
marks-identifier_from true (c ∷ cs) h =
    let parts = and_parts (is_alpha c || c == b'_') (identifier_from false cs) h in
    omega
      (arith, marks-cons c cs, no_mark_at_start c parts.0, marks-identifier_from false cs parts.1)
marks-identifier_from false (c ∷ cs) h =
    let parts = and_parts (is_word c || c == b'.') (identifier_from (c == b'.') cs) h in
    omega (
      arith,
      marks-cons c cs,
      no_mark_inside c parts.0,
      marks-identifier_from (c == b'.') cs parts.1,
    )

-- An identifier has none.
pub marks-identifier : (s : String) → is_identifier s ≡ true → marks (codes s) ≡ 0
unfolding is_identifier
marks-identifier s h = marks-identifier_from true (codes s) h
