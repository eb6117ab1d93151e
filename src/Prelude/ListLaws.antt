-- ===== src/Prelude/ListLaws.antt =====
-- Laws of the searches and filters on lists.
use Prim.Native.Nat.{ℕ, zero, suc, ◌≤◌, ◌<◌}
use mathlib.Core.Path.{◌≡◌, refl, ap}
use mathlib.Core.Logic.{◌⊎◌, inl, inr}
use mathlib.Core.Bool.{Bool, true, false, ◌&&◌, ◌||◌}
use mathlib.Core.List.{List, [], ◌∷◌, ◌++◌, map}
use mathlib.Core.Option.{none, some}
use native.Mathlib.Omega.{arith}
use nest_nexus.Prelude.Tests.{if◌then◌else◌, is_some, Bool-cases}
use nest_nexus.Prelude.Lists.{any, filter, find, map_if, Has, head, later, take, drop, length}

module _ {A : Type 0} where
  pub is_some-find : (p : A → Bool) (xs : List A) → is_some (find p xs) ≡ any p xs
  is_some-find p [] = refl
  is_some-find p (x ∷ xs) = ground (arith, is_some-find p xs)

  -- An element that passes, with its place.
  pub any-Has : (p : A → Bool) (xs : List A) → any p xs ≡ true → (x : A) × Has x xs × (p x ≡ true)
  any-Has p [] h = ground arith
  any-Has p (x ∷ xs) h = elim (Bool-cases (p x)) [
    | inl here ↦ (x, head, here)
    | inr not_here ↦
        let (y, place, passes) = any-Has p xs (rw not_here at h) in (y, later place, passes)
  ]

  pub Has-any : (p : A → Bool) {x : A} {xs : List A} → Has x xs → p x ≡ true → any p xs ≡ true
  Has-any p head e = rw e
  Has-any p (later {x = y} place) e = elim (Bool-cases (p y)) [
    | inl here ↦ rw here
    | inr not_here ↦ rw not_here (Has-any p place e)
  ]

  pub any-map-filter :
      {B : Type 0} (q : B → Bool) (f : A → B) (p : A → Bool) (xs : List A)
      → any q (map f (filter p xs)) ≡ any (λ x. p x && q (f x)) xs
  any-map-filter q f p [] = refl
  any-map-filter q f p (x ∷ xs) = elim (Bool-cases (p x)) [
    | inl e ↦ rw e (ap (λ b. q (f x) || b) (any-map-filter q f p xs))
    | inr e ↦ rw e (any-map-filter q f p xs)
  ]

module _ {A : Type 0} where
  pub any_mono :
      {p q : A → Bool}
      → ((x : A) → p x ≡ true → q x ≡ true)
      → (xs : List A) → any p xs ≡ true
      → any q xs ≡ true
  any_mono {p} {q} f xs h = let (x, place, passes) = any-Has p xs h in Has-any q place (f x passes)

module _ {A : Type 0} where
  pub any_none : {p : A → Bool} → ((x : A) → p x ≡ false) → (xs : List A) → any p xs ≡ false
  any_none f [] = refl
  any_none f (x ∷ xs) = rw (f x) (any_none f xs)

  -- A failed search, element by element.
  pub find-none : (p : A → Bool) {x : A} (xs : List A) → find p xs ≡ none → Has x xs → p x ≡ false
  find-none p [] h place = elim place [ ]
  find-none p (y ∷ xs) h head = ground arith
  find-none p (y ∷ xs) h (later place) = find-none p xs (ground arith) place

  pub find-some :
      (p : A → Bool) {x : A} (xs : List A) → find p xs ≡ some x → Has x xs × (p x ≡ true)
  find-some p [] h = cc
  find-some p {x} (y ∷ xs) h = elim (Bool-cases (p y)) [
    | inl here ↦ let same : y ≡ x = ground arith in rw (← same) (head, here)
    | inr not_here ↦ let (place, passes) = find-some p xs (ground arith) in (later place, passes)
  ]

  pub map_if-same : (p : A → Bool) (xs : List A) → map_if p (λ x. x) xs ≡ xs
  map_if-same p [] = refl
  map_if-same p (x ∷ xs) = ground (arith, map_if-same p xs)

  pub Has-append : {x : A} (xs : List A) {ys : List A} → Has x (xs ++ ys) → Has x xs ⊎ Has x ys
  Has-append [] h = inr h
  Has-append (y ∷ xs) head = inl head
  Has-append (y ∷ xs) (later h) = elim (Has-append xs h) [ inl a ↦ inl (later a) | inr b ↦ inr b ]

  pub Has-left : {x : A} {xs : List A} (ys : List A) → Has x xs → Has x (xs ++ ys)
  Has-left ys head = head
  Has-left ys (later h) = later (Has-left ys h)

  pub Has-right : {x : A} (xs : List A) {ys : List A} → Has x ys → Has x (xs ++ ys)
  Has-right [] h = h
  Has-right (y ∷ xs) h = later (Has-right xs h)

  pub Has-cons : {x y : A} {xs : List A} → Has x (y ∷ xs) → (x ≡ y) ⊎ Has x xs
  Has-cons head = inl refl
  Has-cons (later h) = inr h

  pub Has-one : {x y : A} → Has x (y ∷ []) → x ≡ y
  Has-one head = refl
  Has-one (later h) = elim h [ ]

  Has-kept :
      (p : A → Bool) {x y : A} (xs : List A)
      → p y ≡ true
      → (Has x (filter p xs) → Has x xs × (p x ≡ true))
      → Has x (y ∷ filter p xs)
      → Has x (y ∷ xs) × (p x ≡ true)
  Has-kept p xs passes rest head = (head, passes)
  Has-kept p xs passes rest (later h) = let (place, e) = rest h in (later place, e)

  pub Has-filter :
      (p : A → Bool) {x : A} (xs : List A) → Has x (filter p xs) → Has x xs × (p x ≡ true)
  Has-filter p [] h = elim h [ ]
  Has-filter p {x} (y ∷ xs) h = elim (Bool-cases (p y)) [
    | inl keep ↦ Has-kept p xs keep (Has-filter p xs) (rw keep at h)
    | inr drop_it ↦ let (place, passes) = Has-filter p xs (rw drop_it at h) in (later place, passes)
  ]

  pub filter-Has :
      (p : A → Bool) {x : A} {xs : List A} → Has x xs → p x ≡ true → Has x (filter p xs)
  filter-Has p head e = rw e head
  filter-Has p (later {x = y} h) e = elim (Bool-cases (p y)) [
    | inl keep ↦ rw keep (later (filter-Has p h e))
    | inr drop_it ↦ rw drop_it (filter-Has p h e)
  ]

  pub Has-take : {x : A} (n : ℕ) (xs : List A) → Has x (take n xs) → Has x xs
  Has-take zero xs h = elim h [ ]
  Has-take (suc n) [] h = elim h [ ]
  Has-take (suc n) (y ∷ xs) head = head
  Has-take (suc n) (y ∷ xs) (later h) = later (Has-take n xs h)

  pub Has-drop : {x : A} (n : ℕ) (xs : List A) → Has x (drop n xs) → Has x xs
  Has-drop zero xs h = h
  Has-drop (suc n) [] h = elim h [ ]
  Has-drop (suc n) (y ∷ xs) h = later (Has-drop n xs h)

  pub length-take-le : (n : ℕ) (xs : List A) → length (take n xs) ≤ n
  length-take-le zero xs = omega arith
  length-take-le (suc n) [] = omega arith
  length-take-le (suc n) (x ∷ xs) = omega (arith, length-take-le n xs)

  -- An element stands on some page of any positive size.
  pub Has-page :
      {x : A} (n : ℕ) {xs : List A} → 0 < n → Has x xs → (k : ℕ) × Has x (take n (drop k xs))
  Has-page zero h place = absurd (omega arith)
  Has-page (suc n) h head = (0, head)
  Has-page (suc n) h (later place) = let (k, found) = Has-page (suc n) h place in (suc k, found)

module _ {A B : Type 0} where
  pub Has-map :
      (f : A → B) {y : B} (xs : List A) → Has y (map f xs) → (x : A) × Has x xs × (y ≡ f x)
  Has-map f [] h = elim h [ ]
  Has-map f (x ∷ xs) h = elim (Has-cons h) [
    | inl e ↦ (x, head, e)
    | inr rest ↦ let (z, place, e) = Has-map f xs rest in (z, later place, e)
  ]

  pub map-Has : (f : A → B) {x : A} {xs : List A} → Has x xs → Has (f x) (map f xs)
  map-Has f head = head
  map-Has f (later h) = later (map-Has f h)

  pub length-map : (f : A → B) (xs : List A) → length (map f xs) ≡ length xs
  length-map f [] = refl
  length-map f (x ∷ xs) = ap suc (length-map f xs)

module _ {A : Type 0} where
  -- Where an element goes under a conditional map.
  pub Has-map_if :
      (p : A → Bool) (f : A → A) {x : A} {xs : List A}
      → Has x xs
      → (y : A) × Has y (map_if p f xs) × ((y ≡ x) ⊎ (y ≡ f x))
  Has-map_if p f {x} head = elim (Bool-cases (p x)) [
    | inl hit ↦ (f x, rw hit head, inr refl)
    | inr missed ↦ (x, rw missed head, inl refl)
  ]
  Has-map_if p f (later h) = let (y, place, from) = Has-map_if p f h in (y, later place, from)

  pub map_if-Has :
      (p : A → Bool) (f : A → A) (xs : List A) {y : A}
      → Has y (map_if p f xs)
      → (x : A) × Has x xs × (y ≡ (if p x then f x else x))
  map_if-Has p f [] h = elim h [ ]
  map_if-Has p f (x ∷ xs) head = (x, head, refl)
  map_if-Has p f (x ∷ xs) (later h) =
      let (z, place, from) = map_if-Has p f xs h in (z, later place, from)

  pub none-found :
      (p : A → Bool) (xs : List A) → ((x : A) → Has x xs → p x ≡ false) → find p xs ≡ none
  none-found p [] h = refl
  none-found p (x ∷ xs) h = rw (h x head) (none-found p xs (λ y place. h y (later place)))
