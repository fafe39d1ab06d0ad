-- ===== src/Tests/Crypto.antt =====
-- The legacy padding and keys at concrete inputs.
use dwho.Base.{ℕ, List, [], ◌∷◌, ◌≡◌, refl, ok, raise, value_error}
use dwho.Crypto
use dwho.Crypto.{pad, unpad, block_size, normalize_key, take}

runs : Unit {0}
unfolding Crypto.drop take Crypto.replicate Crypto.last pad unpad normalize_key
runs = tt

-- A count over the bytes that are there, and bytes that differ in the run.
unpad_short : unpad (1 ∷ 5 ∷ []) ≡ raise value_error
unfolding runs
unpad_short = refl

unpad_mixed : unpad (9 ∷ 3 ∷ 2 ∷ 3 ∷ []) ≡ raise value_error
unfolding runs
unpad_mixed = refl

short_key : normalize_key (1 ∷ 2 ∷ 3 ∷ []) ≡ raise value_error
unfolding runs
short_key = refl

abbrev secret : List ℕ
secret = 1 ∷ 2 ∷ 3 ∷ 4 ∷ 5 ∷ 6 ∷ 7 ∷ 8 ∷ 9 ∷ 10 ∷ 11 ∷ 12 ∷ 13 ∷ 14 ∷ 15 ∷ 16 ∷ 17 ∷ []

-- A secret of seventeen bytes gives a key of sixteen.
key_of_secret : normalize_key secret ≡ ok (take 16 secret)
unfolding runs
key_of_secret = refl
