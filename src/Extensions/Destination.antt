-- ===== src/Extensions/Destination.antt =====
-- dwho/classes/inoplugs.py: where `realdstpath` puts a file.
use dwho.Base.{ℕ, String, false, List, [], ◌∷◌, ◌++◌, if◌then◌else◌, ◌≡◌}
use dwho.Base.Text.{codes, prefix_of}
use dwho.Extensions.Inoplugs.{ends_in_slash, join_path, lstrip_slash}

-- A path without a slash at its front.
abbrev IsRelative : List ℕ → Type 0
IsRelative path = prefix_of (codes "/") path ≡ false

-- What `join_path` puts in front of a relative path.
abbrev front : List ℕ → List ℕ
front a = if ends_in_slash a then a else a ++ (b'/' ∷ [])

-- The directory that a file is put under: the prefix, at the root, or the destination.
abbrev pub target : List ℕ → String → List ℕ
target [] dest = codes dest
target (c ∷ prefix) dest = join_path (codes "/") (c ∷ prefix)

-- Where a prefix puts a file with this front and this relative rest.
moved : List ℕ → List ℕ → List ℕ
moved [] base = base
moved (c ∷ prefix) base = front (join_path (codes "/") (c ∷ prefix)) ++ lstrip_slash base
