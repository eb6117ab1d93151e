-- ===== src/Store/Updates.antt =====
-- The outcomes of an update, for every table.
use nest_nexus.Prelude.{
  ◌≡◌, refl, sym, ap, ◌∙◌, ◌⊎◌, inl, inr, Bool, false, not, ◌&&◌, ◌||◌, some, List, [], ◌∷◌, any,
  find, map_if, if◌then◌else◌, Bool-cases, Option-cases, find-some, find-map_if, fun_ext,
}
use nest_nexus.Exec.{Exception, Result, ok, err, failed}
use nest_nexus.Prisma.{list_prisma, p2002, p2025}
use nest_nexus.Schema.{App}
use nest_nexus.Store.{Table, update}

module _ {R : Type 0} (t : Table R) (q : R → Bool) (f : R → R) (s : App) where
  pub update-cases :
      ((e : Exception) × (update t q f s ≡ (err e, s)))
      ⊎ ((r : R) × (find q (t.rows s) ≡ some r)
          × (update t q f s ≡ (ok (f r), t.write s (map_if q f (t.rows s)))))
  update-cases = elim (Option-cases (find q (t.rows s))) [
    | inl missing ↦ inl (p2025, rw missing refl)
    | inr (r, found) ↦ elim (Bool-cases (any (λ o. not (q o) && t.clash (f r) o) (t.rows s))) [
      | inl taken ↦ inl (p2002, rw (found, taken) refl)
      | inr free ↦ inr (r, found, rw (found, free) refl)
    ]
  ]

  -- An update that answered: the row, whose change clashes with no other, and the change.
  pub update-passed :
      {u : R} {s' : App}
      → update t q f s ≡ (ok u, s')
      → (r : R) × (find q (t.rows s) ≡ some r)
        × (any (λ o. not (q o) && t.clash (f r) o) (t.rows s) ≡ false)
        × (s' ≡ t.write s (map_if q f (t.rows s)))
  update-passed h = elim (Option-cases (find q (t.rows s))) [
    | inl missing ↦ failed (rw missing at h)
    | inr (r, found) ↦ elim (Bool-cases (any (λ o. not (q o) && t.clash (f r) o) (t.rows s))) [
      | inl taken ↦ failed (rw taken at (rw found at h))
      | inr free ↦
          (r, found, free, sym (ap (λ (o : Result R × App). o.1) (rw free at (rw found at h))))
    ]
  ]

module _ {R : Type 0} (q c : R → Bool) (f : R → R) (same : (r : R) → q (f r) ≡ q r) where
  -- The rows that an update leaves alone are those that it left alone before.
  any-map_if :
      (rows : List R)
      → any (λ o. not (q o) && c o) (map_if q f rows) ≡ any (λ o. not (q o) && c o) rows
  any-map_if [] = refl
  any-map_if (r ∷ rows) =
      let ih = any-map_if rows in
      elim (Bool-cases (q r)) [
        | inl hit ↦ rw hit (rw (same r, hit) ih)
        | inr miss ↦ rw (miss, miss) (ap (λ b. c r || b) ih)
      ]

module _ {R : Type 0} (t : Table R) (q : R → Bool) (f g : R → R) where
  -- After an update, another one of the same row that no constraint sees.
  pub update-again :
      (s s' : App) (r : R)
      → find q (t.rows s) ≡ some r
      → any (λ o. not (q o) && t.clash (f r) o) (t.rows s) ≡ false
      → t.rows s' ≡ map_if q f (t.rows s)
      → ((r : R) → q (f r) ≡ q r)
      → ((o : R) → t.clash (g (f r)) o ≡ t.clash (f r) o)
      → (find q (t.rows s') ≡ some (f r))
        × (update t q g s' ≡ (ok (g (f r)), t.write s' (map_if q g (t.rows s'))))
  update-again s s' r found free wrote same alike =
      let hit = (find-some q (t.rows s) found).1 in
      let moved : find q (t.rows s') ≡ some (f r) =
        ap (find q) wrote
        ∙ find-map_if q q f same (t.rows s) found
        ∙ ap (λ b. some (if b then f r else r)) hit in
      let still : any (λ o. not (q o) && t.clash (g (f r)) o) (t.rows s') ≡ false =
        ap (λ c. any (λ o. not (q o) && c o) (t.rows s')) (fun_ext alike)
        ∙ ap (any (λ o. not (q o) && t.clash (f r) o)) wrote
        ∙ any-map_if q (t.clash (f r)) f same (t.rows s)
        ∙ free in
      (moved, rw (moved, still) refl)
