-- ===== src/Document/Grants.antt =====
-- What a grant does to the table of relations.
use nest_nexus.Prelude.{
  and-true, String, ◌≡◌, ◌⊎◌, refl, inl, inr, Bool, true, false, not, ◌&&◌, none, some, [], ◌∷◌,
  ◌++◌, string_eq, eq_iff, eq_refl, any, find, Option-cases, find-some, any-Has, find-none,
  any_none, map_if-same,
}
use nest_nexus.Exec.{ok}
use nest_nexus.Prisma.{list_prisma}
use nest_nexus.Enums.{Relation, relation_eq}
use nest_nexus.Schema.{RelationTuple, relation_tuple_clash, App}
use nest_nexus.Authorization.Relations.{is_tuple, grant}

abbrev pub new_tuple : String → Relation → String → String → RelationTuple
new_tuple sub r type id = record {
  subject_type = "user";
  subject_id = sub;
  relation = r;
  object_type = type;
  object_id = id;
}

-- The columns of a tuple decide it.
tuple_eq :
    {a b : RelationTuple}
    → a.subject_type ≡ b.subject_type
    → a.subject_id ≡ b.subject_id
    → a.relation ≡ b.relation
    → a.object_type ≡ b.object_type
    → a.object_id ≡ b.object_id
    → a ≡ b
tuple_eq p q r t u = λ i. record {
  subject_type = p i;
  subject_id = q i;
  relation = r i;
  object_type = t i;
  object_id = u i;
}

clash→eq : (a b : RelationTuple) → relation_tuple_clash a b ≡ true → a ≡ b
clash→eq a b h =
    let (k3, h5) = and-true _ _ h in
    let (k2, h4) = and-true _ _ k3 in
    let (k1, h3) = and-true _ _ k2 in
    let (h1, h2) = and-true _ _ k1 in
    tuple_eq ((eq_iff _ _).0 h1) ((eq_iff _ _).0 h2) ((relation_eq.beq_iff _ _).0 h3)
      ((eq_iff _ _).0 h4) ((eq_iff _ _).0 h5)

clash_refl : (a : RelationTuple) → relation_tuple_clash a a ≡ true
clash_refl a = simp (eq_refl, (relation_eq.beq_iff a.relation a.relation).1 refl)

not_true : (b : Bool) → ¬ (b ≡ true) → b ≡ false
not_true true h = absurd (h refl)
not_true false h = refl

module _ (sub : String) (r : Relation) (type id : String) where
  pub is_tuple-eq :
      (t : RelationTuple) → is_tuple sub r type id t ≡ true → t ≡ new_tuple sub r type id
  is_tuple-eq t h = clash→eq t (new_tuple sub r type id) h

  is_tuple-differs :
      (t u : RelationTuple)
      → t ≡ u
      → not (is_tuple sub r type id u) ≡ true
      → is_tuple sub r type id t ≡ true
      → ⊥
  is_tuple-differs t u same differs passes = cc

  pub grant_cases :
      (s : App)
      → (grant sub r type id s ≡ (ok tt, s))
        ⊎ (grant sub r type id s ≡ (
          ok tt,
          record s { relation_tuples = s.relation_tuples ++ new_tuple sub r type id ∷ [] },
        ))
  unfolding grant
  grant_cases s = elim (Option-cases (find (is_tuple sub r type id) s.relation_tuples)) [
    | inl absent ↦ inr (rw absent (rw (no_clash absent)))
    | inr (t, found) ↦ inl (rw found (rw (same_clash t found) (rw map_if-same)))
  ]
    where
      new : RelationTuple
      new = new_tuple sub r type id

      no_clash :
          find (is_tuple sub r type id) s.relation_tuples ≡ none
          → any (relation_tuple_clash new) s.relation_tuples ≡ false
      no_clash absent = not_true _ λ h.
          let (t, place, same) = any-Has (relation_tuple_clash new) s.relation_tuples h in
          cc (
            find-none (is_tuple sub r type id) s.relation_tuples absent place,
            clash→eq new t same,
            clash_refl new,
          )

      same_clash :
          (t : RelationTuple)
          → find (is_tuple sub r type id) s.relation_tuples ≡ some t
          → any (λ u. not (is_tuple sub r type id u) && relation_tuple_clash t u) s.relation_tuples
            ≡ false
      same_clash t found =
          any_none
            (λ u. not_true _ λ h.
              let (differs, same) = and-true (not (is_tuple sub r type id u)) _ h in
              is_tuple-differs t u (clash→eq t u same) differs
                (find-some (is_tuple sub r type id) s.relation_tuples found).1)
            s.relation_tuples

  -- A grant succeeds, and adds its tuple at most.
  pub grant_lem :
      (s : App)
      → (t : App) × (grant sub r type id s ≡ (ok tt, t))
        × ((t ≡ s)
            ⊎ (t
                ≡ record s { relation_tuples = s.relation_tuples ++ new_tuple sub r type id ∷ [] }))
  grant_lem s = elim (grant_cases s) [
    | inl same ↦ (s, same, inl refl)
    | inr added ↦ (_, added, inr refl)
  ]
