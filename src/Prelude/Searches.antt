-- ===== src/Prelude/Searches.antt =====
-- Searches through lists that were changed, filtered, cut or extended.
use Prim.Native.Nat.{ℕ, zero, suc, ◌<◌}
use mathlib.Core.Path.{◌≡◌, refl, ap}
use mathlib.Core.Logic.{inl, inr}
use mathlib.Core.Bool.{Bool, true, false, not}
use mathlib.Core.List.{List, [], ◌∷◌, ◌++◌}
use mathlib.Core.Option.{none, some}
use native.Mathlib.Omega.{arith}
use nest_nexus.Prelude.Tests.{if◌then◌else◌, Bool-cases}
use nest_nexus.Prelude.Lists.{any, filter, find, map_if, Has, take, is_nil}
use nest_nexus.Prelude.ListLaws.{Has-filter, filter-Has}

module _ {A : Type 0} where
  module _ (p q : A → Bool) (f : A → A) (keeps : (x : A) → p (f x) ≡ p x) where
    pub filter-map_if : (xs : List A) → filter p (map_if q f xs) ≡ map_if q f (filter p xs)
    filter-map_if [] = refl
    filter-map_if (x ∷ xs) = ground (arith, keeps x, filter-map_if xs)

    pub find-map_if :
        (xs : List A) {x : A}
        → find p xs ≡ some x
        → find p (map_if q f xs) ≡ some (if q x then f x else x)
    find-map_if [] h = cc
    find-map_if (y ∷ xs) {x} h = elim (Bool-cases (p y)) [
      | inl here ↦ ground (arith, keeps y)
      | inr not_here ↦ ground (arith, keeps y, find-map_if xs {x = x})
    ]

  pub take-map_if :
      (q : A → Bool) (f : A → A) (n : ℕ) (xs : List A)
      → take n (map_if q f xs) ≡ map_if q f (take n xs)
  take-map_if q f zero xs = refl
  take-map_if q f (suc n) [] = refl
  take-map_if q f (suc n) (x ∷ xs) =
      ap (λ rest. (if q x then f x else x) ∷ rest) (take-map_if q f n xs)

  pub filter-append :
      (p : A → Bool) (xs ys : List A) → filter p (xs ++ ys) ≡ filter p xs ++ filter p ys
  filter-append p [] ys = refl
  filter-append p (x ∷ xs) ys = ground (arith, filter-append p xs ys)

  pub find-take-append :
      (p : A → Bool) (n : ℕ) (xs ys : List A) {x : A}
      → find p (take n xs) ≡ some x
      → find p (take n (xs ++ ys)) ≡ some x
  find-take-append p zero xs ys h = cc
  find-take-append p (suc n) [] ys h = cc
  find-take-append p (suc n) (y ∷ xs) ys {x} h = elim (Bool-cases (p y)) [
    | inl here ↦ ground arith
    | inr not_here ↦ ground (arith, find-take-append p n xs ys {x = x})
  ]

  -- A cut of a positive size is empty only if the list is.
  pub take-is_nil : (n : ℕ) (xs : List A) {x : A} → 0 < n → is_nil (take n xs) ≡ true → ¬ Has x xs
  take-is_nil zero xs h e place = absurd (omega arith)
  take-is_nil (suc n) [] h e place = elim place [ ]
  take-is_nil (suc n) (y ∷ xs) h e place = cc

  -- What is left after the rows that pass are deleted.
  pub deleted-none :
      (p : A → Bool) (xs : List A) {x : A} → Has x (filter (λ y. not (p y)) xs) → p x ≡ false
  deleted-none p xs {x} h = ground (arith, (Has-filter (λ y. not (p y)) xs h).1)

  pub filter-nil :
      (p : A → Bool) (xs : List A) {x : A} → (¬ Has x (filter p xs)) → Has x xs → p x ≡ false
  filter-nil p xs {x} none_left place = elim (Bool-cases (p x)) [
    | inl passes ↦ absurd (none_left (filter-Has p place passes))
    | inr e ↦ e
  ]

  -- A search that is within a test that no element passes finds nothing.
  pub none-of-any :
      (q c : A → Bool)
      → ((x : A) → q x ≡ true → c x ≡ true)
      → (xs : List A) → any c xs ≡ false
      → find q xs ≡ none
  none-of-any q c within [] h = refl
  none-of-any q c within (x ∷ xs) h = elim (Bool-cases (q x)) [
    | inl hit ↦ let bad = within x hit in ground arith
    | inr miss ↦ rw miss (none-of-any q c within xs (ground arith))
  ]

  pub find-last :
      (q : A → Bool) (xs : List A) (x : A)
      → find q xs ≡ none
      → q x ≡ true
      → find q (xs ++ x ∷ []) ≡ some x
  find-last q [] x h hit = rw hit refl
  find-last q (y ∷ xs) x h hit = elim (Bool-cases (q y)) [
    | inl early ↦ ground arith
    | inr miss ↦ rw miss (find-last q xs x (rw miss at h) hit)
  ]
