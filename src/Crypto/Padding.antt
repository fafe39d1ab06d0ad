-- ===== src/Crypto/Padding.antt =====
-- dwho/helpers/crypto.py: padding of the legacy format can be undone.
use dwho.Base.{
  ℕ, zero, suc, ◌-◌, ◌%◌, ◌≤◌, true, false, List, [], ◌∷◌, ◌++◌, ok, ltb, length, length-append,
  ◌≡◌, refl, arith, ap, ◌∙◌, ◌⊎◌, inl, inr, Bool-cases,
}
use dwho.Crypto.{
  take, drop, replicate, last, same_bytes, block_size, pad, tail, but_tail, unpad, normalize_key,
}

pub length-replicate : (n c : ℕ) → length (replicate n c) ≡ n
unfolding replicate
length-replicate zero c = refl
length-replicate (suc n) c = omega (arith, length-replicate n c)

pub take-append : (xs ys : List ℕ) → take (length xs) (xs ++ ys) ≡ xs
unfolding take
take-append [] ys = refl
take-append (x ∷ xs) ys = ap (◌∷◌ x) (take-append xs ys)

pub drop-append : (xs ys : List ℕ) → drop (length xs) (xs ++ ys) ≡ ys
unfolding drop
drop-append [] ys = refl
drop-append (x ∷ xs) ys = drop-append xs ys

last-replicate : (n c x : ℕ) → last x (replicate (suc n) c) ≡ c
unfolding last replicate
last-replicate zero c x = refl
last-replicate (suc n) c x = last-replicate n c c

last-append : (x c n : ℕ) (xs : List ℕ) → last x (xs ++ replicate (suc n) c) ≡ c
unfolding last
last-append x c n [] = last-replicate n c x
last-append x c n (y ∷ xs) = last-append y c n xs

pub same_bytes_refl : (xs : List ℕ) → same_bytes xs xs ≡ true
same_bytes_refl [] = refl
same_bytes_refl (x ∷ xs) = ground (arith, same_bytes_refl xs)

-- Bytes that end in a run of their own count lose just that run.
unpad-run :
    (x : ℕ) (xs body : List ℕ) (n : ℕ)
    → n ≤ 15
    → x ∷ xs ≡ body ++ replicate (suc n) (suc n)
    → last x xs ≡ suc n
    → unpad (x ∷ xs) ≡ ok body
unfolding unpad
unpad-run x xs body n small whole ends =
    let run = replicate (suc n) (suc n) in
    let kept : length (x ∷ xs) - suc n ≡ length body =
      omega (arith, ap length whole, length-append body run, length-replicate (suc n) (suc n)) in
    let tail_run : tail (suc n) (x ∷ xs) ≡ run =
      ap (λ m. drop m (x ∷ xs)) kept ∙ (ap (drop (length body)) whole ∙ drop-append body run) in
    let rest : but_tail (suc n) (x ∷ xs) ≡ body =
      ap (λ m. take m (x ∷ xs)) kept ∙ (ap (take (length body)) whole ∙ take-append body run) in
    let low : ltb (suc n) 1 ≡ false = ground arith in
    let high : ltb 16 (suc n) ≡ false = ground arith in
    rw (ends, low, high, tail_run, same_bytes_refl run, rest) refl

unpad-append :
    (body : List ℕ) (n : ℕ) → n ≤ 15 → unpad (body ++ replicate (suc n) (suc n)) ≡ ok body
unfolding replicate last
unpad-append [] n small =
    unpad-run (suc n) (replicate n (suc n)) [] n small refl (last-replicate n (suc n) (suc n))
unpad-append (x ∷ xs) n small =
    unpad-run x (xs ++ replicate (suc n) (suc n)) (x ∷ xs) n small refl (last-append x (suc n) n xs)

pub length-pad : (body : List ℕ) → length (pad block_size body) % block_size ≡ 0
unfolding pad
length-pad body =
    let count = 16 - length body % 16 in
    omega (arith, length-append body (replicate count count), length-replicate count count)

-- `_unpad` gives back what `_pad` was given, for the block size of the cipher and any bytes, and the
-- padded bytes fill whole blocks.
pub unpad-pad :
    (body : List ℕ)
    → (unpad (pad block_size body) ≡ ok body) × (length (pad block_size body) % block_size ≡ 0)
unfolding pad
unpad-pad body =
    let n = 15 - length body % 16 in
    let count : 16 - length body % 16 ≡ suc n = omega arith in
    (rw count (unpad-append body n (omega arith)), length-pad body)

pub length-take : (n : ℕ) (xs : List ℕ) → n ≤ length xs → length (take n xs) ≡ n
unfolding take
length-take zero xs h = refl
length-take (suc n) [] h = absurd (omega (arith, h))
length-take (suc n) (x ∷ xs) h = ap suc (length-take n xs (omega (arith, h)))

-- A secret of at least 16 bytes gives a key, its first 32, 24 or 16 bytes: the longest of these that
-- is shorter than the secret, or 16.
pub normalize_key-take :
    (secret : List ℕ)
    → 16 ≤ length secret
    → (n : ℕ) × (normalize_key secret ≡ ok (take n secret))
      × (length (take n secret) ≡ n)
      × ((n ≡ 32) × (33 ≤ length secret)
          ⊎ ((n ≡ 24) × (25 ≤ length secret) × (length secret ≤ 32)
              ⊎ (n ≡ 16) × (length secret ≤ 24)))
unfolding normalize_key
normalize_key-take secret h = elim (Bool-cases (ltb 32 (length secret))) [
  | inl big ↦
      let l : length (take 32 secret) ≡ 32 = length-take 32 secret (ground arith) in
      (32, rw (big, l) refl, l, inl (refl, ground arith))
  | inr small ↦ elim (Bool-cases (ltb 24 (length secret))) [
    | inl middle ↦
        let l : length (take 24 secret) ≡ 24 = length-take 24 secret (ground arith) in
        (24, rw (small, middle, l) refl, l, inr (inl (refl, ground arith, ground arith)))
    | inr least ↦
        let l : length (take 16 secret) ≡ 16 = length-take 16 secret (ground arith) in
        (16, rw (small, least, l) refl, l, inr (inr (refl, ground arith)))
  ]
]
