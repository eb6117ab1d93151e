-- ===== src/Prelude/Lists.antt =====
-- Lists under Boolean tests, as JavaScript arrays are used, and measured by native numbers.
use Prim.Native.Nat.{ℕ, zero, suc, ◌+◌}
use mathlib.Core.Bool.{Bool, true, false, ◌&&◌, ◌||◌}
use mathlib.Core.List.{List, [], ◌∷◌}
use mathlib.Core.Option.{Option, none, some}
use nest_nexus.Prelude.Tests.{Eq, ◌==◌, if◌then◌else◌}

module _ {A : Type 0} where
  abbrev pub length : List A → ℕ
  length [] = 0
  length (x ∷ xs) = suc (length xs)

  abbrev pub take : ℕ → List A → List A
  take zero xs = []
  take (suc n) [] = []
  take (suc n) (x ∷ xs) = x ∷ take n xs

  abbrev pub drop : ℕ → List A → List A
  drop zero xs = xs
  drop (suc n) [] = []
  drop (suc n) (x ∷ xs) = drop n xs

  abbrev pub is_nil : List A → Bool
  is_nil [] = true
  is_nil (x ∷ xs) = false

  abbrev pub any : (A → Bool) → List A → Bool
  any p [] = false
  any p (x ∷ xs) = p x || any p xs

  abbrev pub all : (A → Bool) → List A → Bool
  all p [] = true
  all p (x ∷ xs) = p x && all p xs

  abbrev pub filter : (A → Bool) → List A → List A
  filter p [] = []
  filter p (x ∷ xs) = let rest = filter p xs in if p x then x ∷ rest else rest

  abbrev pub find : (A → Bool) → List A → Option A
  find p [] = none
  find p (x ∷ xs) = let rest = find p xs in if p x then some x else rest

  abbrev pub count : (A → Bool) → List A → ℕ
  count p [] = 0
  count p (x ∷ xs) = (if p x then 1 else 0) + count p xs

  -- Replaces the elements that pass the test.
  abbrev pub map_if : (A → Bool) → (A → A) → List A → List A
  map_if p f [] = []
  map_if p f (x ∷ xs) = (if p x then f x else x) ∷ map_if p f xs

abbrev pub includes : {A : Type 0} ⦃e : Eq A⦄ → List A → A → Bool
includes xs a = any (λ x. x == a) xs

abbrev pub All {ℓ} : {A : Type 0} → (A → Type ℓ) → List A → Type ℓ
All P [] = Unit
All P (x ∷ xs) = P x × All P xs

-- Where an element stands in a list.
pub data Has {A : Type 0} (a : A) : List A → Type 0 where
  head : {xs : List A} → Has a (a ∷ xs)
  later : {x : A} {xs : List A} → Has a xs → Has a (x ∷ xs)
