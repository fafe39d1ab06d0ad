-- ===== src/Base/Lists.antt =====
-- Lists measured by native numbers, and predicates on lists by recursion.
use Prim.Native.Nat.{ℕ, zero, suc, ◌+◌, ◌≤◌}
use mathlib.Core.Path.{◌≡◌, refl}
use mathlib.Core.List.{List, [], ◌∷◌, ◌++◌, map}
use mathlib.Core.Logic.{◌⊎◌, inl, inr}
use mathlib.Core.Option.{Option, none, some}
use mathlib.Core.Bool.{Bool, true, ◌&&◌}
use native.Mathlib.Omega.{arith}

module _ {ℓ} {A : Type ℓ} where
  abbrev pub length : List A → ℕ
  length [] = 0
  length (x ∷ xs) = suc (length xs)

  -- xs[:n], xs[n:] and, where there is one, xs[n]
  abbrev pub take : ℕ → List A → List A
  take zero xs = []
  take (suc n) [] = []
  take (suc n) (x ∷ xs) = x ∷ take n xs

  abbrev pub drop : ℕ → List A → List A
  drop zero xs = xs
  drop (suc n) [] = []
  drop (suc n) (x ∷ xs) = drop n xs

  abbrev pub get_elem? : List A → ℕ → Option A
  get_elem? [] n = none
  get_elem? (x ∷ xs) zero = some x
  get_elem? (x ∷ xs) (suc n) = get_elem? xs n

  abbrev pub all : (A → Bool) → List A → Bool
  all p [] = true
  all p (x ∷ xs) = p x && all p xs

  pub length-take : (n : ℕ) (xs : List A) → length (take n xs) ≤ n
  length-take zero xs = omega arith
  length-take (suc n) [] = omega arith
  length-take (suc n) (x ∷ xs) = omega (arith, length-take n xs)

  pub length-append : (xs ys : List A) → length (xs ++ ys) ≡ length xs + length ys
  length-append [] ys = omega arith
  length-append (x ∷ xs) ys = omega (arith, length-append xs ys)

pub length-map {ℓ κ} :
    {A : Type ℓ} {B : Type κ} (f : A → B) (xs : List A) → length (map f xs) ≡ length xs
length-map f [] = refl
length-map f (x ∷ xs) = omega (arith, length-map f xs)

-- Every item has the property.
abbrev pub All {ℓ κ} : {A : Type ℓ} → (A → Type κ) → List A → Type κ
All P [] = Unit
All P (x ∷ xs) = P x × All P xs

-- The value is among the items.
pub data Has {ℓ} {A : Type ℓ} (a : A) : List A → Type ℓ where
  here : {xs : List A} → Has a (a ∷ xs)
  later : {x : A} {xs : List A} → Has a xs → Has a (x ∷ xs)

module _ {ℓ} {A : Type ℓ} {a : A} where
  pub Has-append_left : {xs : List A} (ys : List A) → Has a xs → Has a (xs ++ ys)
  Has-append_left ys here = here
  Has-append_left ys (later h) = later (Has-append_left ys h)

  pub Has-append_right : (xs : List A) {ys : List A} → Has a ys → Has a (xs ++ ys)
  Has-append_right [] h = h
  Has-append_right (x ∷ xs) h = later (Has-append_right xs h)

  pub Has-append : (xs : List A) {ys : List A} → Has a (xs ++ ys) → Has a xs ⊎ Has a ys
  Has-append [] h = inr h
  Has-append (x ∷ xs) here = inl here
  Has-append (x ∷ xs) (later h) = elim (Has-append xs h) [ inl l ↦ inl (later l) | inr r ↦ inr r ]

pub not-Has-nil {ℓ} : {A : Type ℓ} {a : A} → Has a [] → ⊥
not-Has-nil h = elim h [ ]

pub Has-singleton {ℓ} : {A : Type ℓ} {a x : A} → Has a (x ∷ []) → x ≡ a
Has-singleton here = refl
Has-singleton (later h) = absurd (not-Has-nil h)

pub All-Has {ℓ κ} : {A : Type ℓ} (P : A → Type κ) {a : A} {xs : List A} → All P xs → Has a xs → P a
All-Has P h here = h.0
All-Has P h (later m) = All-Has P h.1 m

module _ {ℓ} {A : Type ℓ} {a : A} where
  pub Has-swap : (x y : A) (xs : List A) → Has a (x ∷ y ∷ xs) → Has a (y ∷ x ∷ xs)
  Has-swap x y xs here = later here
  Has-swap x y xs (later here) = here
  Has-swap x y xs (later (later m)) = later (later m)

  pub Has-behind :
      (x : A) {xs ys : List A} → (Has a xs → Has a ys) → Has a (x ∷ xs) → Has a (x ∷ ys)
  Has-behind x f here = here
  Has-behind x f (later m) = later (f m)
