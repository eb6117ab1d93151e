-- ===== src/Users/Counts.antt =====
-- How many elements pass a test, when those of another test are changed.
use nest_nexus.Prelude.{
  ◌≤◌, ◌+◌, ◌≡◌, refl, inl, inr, arith, Bool, true, false, ◌&&◌, some, List, [], ◌∷◌, string_eq,
  find, count, map_if, if◌then◌else◌, Bool-cases,
}

module _ {A : Type 0} (p q : A → Bool) (f : A → A) where
  pub count-map_if-le :
      (xs : List A) → count p xs ≤ count p (map_if q f xs) + count (λ x. p x && q x) xs
  count-map_if-le [] = omega arith
  count-map_if-le (x ∷ xs) = let ih = count-map_if-le xs in ground arith

  pub count-and-le : (xs : List A) → count (λ x. p x && q x) xs ≤ count q xs
  count-and-le [] = omega arith
  count-and-le (x ∷ xs) = let ih = count-and-le xs in ground arith

  pub count-same : ((x : A) → p (f x) ≡ p x) → (xs : List A) → count p (map_if q f xs) ≡ count p xs
  count-same same [] = refl
  count-same same (x ∷ xs) = rw (count-same same xs) (same_step x same)
    where
      same_step :
          (x : A)
          → ((x : A) → p (f x) ≡ p x)
          → (if p (if q x then f x else x) then 1 else 0) + count p xs
            ≡ (if p x then 1 else 0) + count p xs
      same_step x same = let e = same x in ground arith

  -- The one element that the test finds is not among those that it would take away.
  pub count-unlike :
      {x : A} (xs : List A)
      → find q xs ≡ some x
      → p x ≡ false
      → count q xs ≤ 1
      → count (λ y. p y && q y) xs ≡ 0
  count-unlike [] h miss one = absurd cc
  count-unlike {x} (y ∷ ys) h miss one =
      let le : count (λ y. p y && q y) ys ≤ count q ys = count-and-le ys in
      elim (Bool-cases (q y)) [
        | inl hit ↦
            let same : y ≡ x = ground arith in
            let miss' : p y ≡ false = rw same miss in
            let few : count q ys ≤ 0 = ground arith in rw miss' (omega arith)
        | inr not_y ↦
            let ih : count (λ y. p y && q y) ys ≡ 0 =
              count-unlike {x = x} ys (ground arith) miss (ground arith) in
            ground arith
      ]

  pub count-changed :
      {x : A} (xs : List A) → find q xs ≡ some x → p (f x) ≡ true → 1 ≤ count p (map_if q f xs)
  count-changed [] h hit = absurd cc
  count-changed {x} (y ∷ ys) h hit = elim (Bool-cases (q y)) [
    | inl at_y ↦
        let same : y ≡ x = ground arith in
        let now_hit : p (f y) ≡ true = rw same hit in rw (at_y, now_hit) (omega arith)
    | inr elsewhere ↦
        let ih : 1 ≤ count p (map_if q f ys) = count-changed {x = x} ys (ground arith) hit in
        ground arith
  ]
