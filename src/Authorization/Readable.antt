-- ===== src/Authorization/Readable.antt =====
-- The filter of the list route against the decision of the single read.
use nest_nexus.Prelude.{
  String, ◌≡◌, refl, ap, eq_iff, Bool, true, false, ◌&&◌, ◌||◌, Option, none, some, List, [], ◌∷◌,
  map, arith, inl, inr, ◌==◌, string_eq, any, if◌then◌else◌, includes, is_nil, find, filter,
  is_some, is_some-find, any-map-filter, Bool-cases,
}
use nest_nexus.Exec.{Result, ok, err}
use nest_nexus.Prisma.{Prisma, PrismaLaws, list_prisma, by_lists}
use nest_nexus.Enums.{Permission, document_read, document_read_any, viewer, relation_eq}
use nest_nexus.Schema.{RelationTuple, Document, App}
use nest_nexus.Authorization.Policies.{AuthSubject, evaluate_policy}
use nest_nexus.Authorization.Relations.{grants, check, object_ids_for}
use nest_nexus.Authorization.Decision.{
  readable_clauses, visibility_in, owner_is, any_of, as_resource, document_type, is_super_admin,
  has_permission, id_in, satisfies, DocumentWhere, matches, can, readable_document_where,
}

-- What the list route does with the filter: no filter means that nothing is read.
abbrev pub admits : Result (Option DocumentWhere) → Document → Result Bool
admits (ok none) d = ok false
admits (ok (some w)) d = ok (matches w d)
admits (err e) d = err e

-- The documents listed by the relation query are those that the relation check finds.
viewable :
    (id : String) (d : Document) (ts : List RelationTuple)
    → is_some (find (λ t. grants id viewer document_type t && t.object_id == d.id) ts)
      ≡ includes (map (λ t. t.object_id) (filter (grants id viewer document_type) ts)) d.id
viewable id d ts = rw (is_some-find, any-map-filter) refl

clause-of-ids :
    (ids : List String) (d : Document)
    → any (satisfies d) (if is_nil ids then [] else id_in ids ∷ []) ≡ includes ids d.id
clause-of-ids [] d = refl
clause-of-ids (i ∷ ids) d = ground arith

-- Either way of reading a document by its attributes.
evaluate_policy-clauses :
    (u : AuthSubject) (d : Document)
    → evaluate_policy "document.read" (record { user = u; resource = (as_resource d).attrs })
      ≡ (satisfies d (visibility_in ("public" ∷ "internal" ∷ [])) || satisfies d (owner_is u.sub))
unfolding evaluate_policy
evaluate_policy-clauses u d = ground (
  arith,
  eq_iff d.visibility "public",
  eq_iff "public" d.visibility,
  eq_iff d.visibility "internal",
  eq_iff "internal" d.visibility,
)

has_permission_of_super :
    (u : AuthSubject) (p : Permission)
    → is_super_admin (some u) ≡ true
    → has_permission (some u) p ≡ true
unfolding has_permission
has_permission_of_super u p h = rw h

or_assoc : (a b c d : Bool) → a ≡ (b || c) → (a || d) ≡ (b || (c || d))
or_assoc a true c d h = rw h
or_assoc a false c d h = rw h

-- The decision by attributes, else by relation, against the clauses of the filter.
by_attributes_or_relation :
    (u : AuthSubject) (d : Document) (s : App)
    → (evaluate_policy "document.read" (record { user = u; resource = (as_resource d).attrs })
        || is_some (
            find
              (λ t. grants u.sub viewer document_type t && t.object_id == d.id)
              s.relation_tuples))
      ≡ matches
          (any_of (
            readable_clauses u (
              map
                (λ t. t.object_id)
                (filter (grants u.sub viewer document_type) s.relation_tuples))))
          d
by_attributes_or_relation u d s =
    let ids =
      map (λ t. t.object_id) (filter (grants u.sub viewer document_type) s.relation_tuples) in
    rw (viewable u.sub d s.relation_tuples, ← clause-of-ids ids d)
      (or_assoc _ _ _ _ (evaluate_policy-clauses u d))

pub on_lists :
    (user : Option AuthSubject) (d : Document) (s : App)
    → (can user document_read (as_resource d) s).0 ≡ admits (readable_document_where user s).0 d
unfolding can readable_document_where check object_ids_for
on_lists none d s = refl
on_lists (some u) d s = elim (Bool-cases (is_super_admin (some u))) [
  | inl super ↦ rw (super, has_permission_of_super u document_read super)
  | inr ordinary ↦ elim (Bool-cases (has_permission (some u) document_read)) [
    | inr closed ↦ rw (ordinary, closed)
    | inl scoped ↦ elim (Bool-cases (has_permission (some u) document_read_any)) [
      | inl wide ↦ rw (ordinary, scoped, wide)
      | inr narrow ↦
          elim (Bool-cases (
            evaluate_policy "document.read"
              (record { user = u; resource = (as_resource d).attrs }))) [
                | inl open_ ↦
                    rw (ordinary, scoped, narrow, open_)
                      (ap ok (rw open_ at (by_attributes_or_relation u d s)))
                | inr private ↦
                    rw (ordinary, scoped, narrow, private)
                      (ap ok (rw private at (by_attributes_or_relation u d s)))
              ]
    ]
  ]
]

module _ {prisma : Prisma} (laws : PrismaLaws prisma) where
  -- For every user and document, the filter of the list route admits the document exactly when the
  -- decision of the single read allows it (no filter admits nothing), whatever the database holds.
  pub can-eq-admits :
      (user : Option AuthSubject) (d : Document) (s : App)
      → (can ⦃prisma = prisma⦄ user document_read (as_resource d) s).0
        ≡ admits (readable_document_where ⦃prisma = prisma⦄ user s).0 d
  can-eq-admits = rw (by_lists laws) on_lists
