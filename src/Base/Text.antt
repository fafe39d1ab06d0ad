-- ===== src/Base/Text.antt =====
-- Walking a text by its code points.
use Prim.Native.Nat.{ℕ, zero, suc, ◌+◌, ◌-◌}
use Prim.Native.Char.{Char, code}
use Prim.Native.String.{String}
use mathlib.Core.Bool.{Bool, true, false, ◌&&◌, ◌||◌}
use mathlib.Core.List.{List, [], ◌∷◌}
use dwho.Base.Tests.{leb, ltb, ◌==◌, if◌then◌else◌}

-- The code points; `String` has its own `[]` and `∷`.
abbrev pub codes : String → List ℕ
codes String.[] = []
codes (String.◌∷◌ c s) = code c ∷ codes s

abbrev pub is_digit : ℕ → Bool
is_digit c = leb b'0' c && leb c b'9'

abbrev pub is_alpha : ℕ → Bool
is_alpha c = (leb b'a' c && leb c b'z') || (leb b'A' c && leb c b'Z')

-- The character class `[A-Za-z0-9_]`.
abbrev pub is_word : ℕ → Bool
is_word c = is_alpha c || is_digit c || c == b'_'

-- len(s.encode('utf-8'))
abbrev pub utf8_length : List ℕ → ℕ
utf8_length [] = 0
utf8_length (c ∷ s) =
    (if ltb c 128 then 1 else if ltb c 2048 then 2 else if ltb c 65536 then 3 else 4)
    + utf8_length s

-- s.startswith(p), on code points
abbrev pub prefix_of : List ℕ → List ℕ → Bool
prefix_of [] t = true
prefix_of (c ∷ p) [] = false
prefix_of (c ∷ p) (d ∷ t) = (c == d) && prefix_of p t

-- p in t, on code points
abbrev pub infix_of : List ℕ → List ℕ → Bool
infix_of p [] = prefix_of p []
infix_of p (d ∷ t) = prefix_of p (d ∷ t) || infix_of p t

-- The n-th character of a text, or the other one.
abbrev char_at : String → ℕ → Char → Char
char_at String.[] n other = other
char_at (String.◌∷◌ c s) zero other = c
char_at (String.◌∷◌ c s) (suc n) other = char_at s n other

abbrev lower_char : Char → Char
lower_char c =
    if leb b'A' (code c) && leb (code c) b'Z'
    then char_at "abcdefghijklmnopqrstuvwxyz" (code c - b'A') c
    else c

-- s.lower(), on the letters of ASCII
unfoldable pub lower : String → String
lower String.[] = ""
lower (String.◌∷◌ c s) = String.◌∷◌ (lower_char c) (lower s)

abbrev upper_char : Char → Char
upper_char c =
    if leb b'a' (code c) && leb (code c) b'z'
    then char_at "ABCDEFGHIJKLMNOPQRSTUVWXYZ" (code c - b'a') c
    else c

-- s.upper(), on the letters of ASCII
unfoldable pub upper : String → String
upper String.[] = ""
upper (String.◌∷◌ c s) = String.◌∷◌ (upper_char c) (upper s)

abbrev cut_code : ℕ → Char → String → String
cut_code k c String.[] = if code c == k then "" else String.◌∷◌ c ""
cut_code k c (String.◌∷◌ d s) = String.◌∷◌ c (String.◌∷◌ d s)

-- s.rstrip(c), for a text c of one character
unfoldable pub rstrip_code : ℕ → String → String
rstrip_code k String.[] = ""
rstrip_code k (String.◌∷◌ c s) = cut_code k c (rstrip_code k s)

-- c.isspace()
abbrev pub is_space : ℕ → Bool
is_space c =
    (leb 9 c && leb c 13)
    || (leb 28 c && leb c 32)
    || c == 133
    || c == 160
    || c == 5760
    || (leb 8192 c && leb c 8202)
    || c == 8232
    || c == 8233
    || c == 8239
    || c == 8287
    || c == 12288

abbrev cut_space : Char → String → String
cut_space c String.[] = if is_space (code c) then "" else String.◌∷◌ c ""
cut_space c (String.◌∷◌ d s) = String.◌∷◌ c (String.◌∷◌ d s)

unfoldable pub rstrip : String → String
rstrip String.[] = ""
rstrip (String.◌∷◌ c s) = cut_space c (rstrip s)

unfoldable pub lstrip : String → String
lstrip String.[] = ""
lstrip (String.◌∷◌ c s) = let rest = lstrip s in if is_space (code c) then rest else String.◌∷◌ c s

-- s.strip()
unfoldable pub strip : String → String
unfolding lstrip rstrip
strip s = lstrip (rstrip s)
