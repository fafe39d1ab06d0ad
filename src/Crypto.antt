-- ===== src/Crypto.antt =====
-- dwho/helpers/crypto.py: the padding and the keys, on bytes; `Formats` is the two formats, over
-- ciphers that are parameters. `_bytes` is outside.
pub mod Padding
pub mod Formats
pub mod RoundTrip
use dwho.Base.{
  ℕ, zero, suc, ◌-◌, ◌%◌, ◌||◌, ◌==◌, Bool, true, false, ◌&&◌, not, List, [], ◌∷◌, ◌++◌,
  if◌then◌else◌, Result, ok, raise, value_error, ltb, length,
}

unfoldable pub take : ℕ → List ℕ → List ℕ
take zero xs = []
take (suc n) [] = []
take (suc n) (x ∷ xs) = x ∷ take n xs

unfoldable pub drop : ℕ → List ℕ → List ℕ
drop zero xs = xs
drop (suc n) [] = []
drop (suc n) (x ∷ xs) = drop n xs

-- int2byte(c) * n
unfoldable pub replicate : ℕ → ℕ → List ℕ
replicate zero c = []
replicate (suc n) c = c ∷ replicate n c

-- ord(data[-1:]), for the bytes `x ∷ xs`
unfoldable pub last : ℕ → List ℕ → ℕ
last x [] = x
last x (y ∷ ys) = last y ys

abbrev pub same_bytes : List ℕ → List ℕ → Bool
same_bytes [] [] = true
same_bytes (x ∷ xs) (y ∷ ys) = (x == y) && same_bytes xs ys
same_bytes _ _ = false

-- AES.block_size
abbrev pub block_size : ℕ
block_size = 16

-- `_pad`, for a block size from 1 to 255
unfoldable pub pad : ℕ → List ℕ → List ℕ
pad bs body = let count = bs - length body % bs in body ++ replicate count count

-- data[-n:] and data[:-n], which take the whole and nothing where n is over the length
abbrev pub tail : ℕ → List ℕ → List ℕ
tail n body = drop (length body - n) body

abbrev pub but_tail : ℕ → List ℕ → List ℕ
but_tail n body = take (length body - n) body

-- `_unpad`
unfoldable pub unpad : List ℕ → Result (List ℕ)
unpad [] = raise value_error
unpad (x ∷ xs) =
    let count = last x xs in
    if ltb count 1
      || ltb block_size count
      || not (same_bytes (tail count (x ∷ xs)) (replicate count count))
    then raise value_error
    else ok (but_tail count (x ∷ xs))

-- `_normalize_key`, of the bytes of the key
unfoldable pub normalize_key : List ℕ → Result (List ℕ)
normalize_key secret =
    let size = if ltb 32 (length secret) then 32 else if ltb 24 (length secret) then 24 else 16 in
    let key = take size secret in
    if length key == 16 || length key == 24 || length key == 32 then ok key else raise value_error
