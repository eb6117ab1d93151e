-- ===== src/Authorization/Relations.antt =====
-- src/modules/authorization/rebac/relation.service.ts: relations between users and objects, stored as
-- tuples, where a stronger relation satisfies every weaker requirement.
use nest_nexus.Prelude.{
  String, Bool, ◌&&◌, List, [], ◌∷◌, map, ◌==◌, nat_eq, string_eq, if◌then◌else◌, filter, includes,
  is_some,
}
use nest_nexus.Exec.{not_found, Exec, pure, throw, ◌>>=◌}
use nest_nexus.Prisma.{Prisma}
use nest_nexus.Enums.{Relation, owner, editor, viewer, relation_eq}
use nest_nexus.Schema.{RelationTuple, App}
use nest_nexus.Store.{relation_tuples, find_first, find_many, upsert, delete_many}

-- RELATION_IMPLIES
unfoldable pub relation_implies : Relation → List Relation
relation_implies owner = owner ∷ editor ∷ viewer ∷ []
relation_implies editor = editor ∷ viewer ∷ []
relation_implies viewer = viewer ∷ []

abbrev pub subject_type : String
subject_type = "user"

unfoldable pub grantors_of : Relation → List Relation
unfolding relation_implies
grantors_of required =
    filter (λ r. includes (relation_implies r) required) (owner ∷ editor ∷ viewer ∷ [])

-- The `where` clause of one tuple, and that of the tuples that satisfy a requirement.
abbrev pub is_tuple : String → Relation → String → String → RelationTuple → Bool
is_tuple subject_id relation object_type object_id t =
    t.subject_type == subject_type
    && t.subject_id == subject_id
    && t.relation == relation
    && t.object_type == object_type
    && t.object_id == object_id

abbrev pub grants : String → Relation → String → RelationTuple → Bool
grants subject_id required object_type t =
    t.subject_type == subject_type
    && t.subject_id == subject_id
    && t.object_type == object_type
    && includes (grantors_of required) t.relation

module _ ⦃prisma : Prisma⦄ where
  -- An upsert whose update writes nothing.
  unfoldable pub grant : String → Relation → String → String → Exec App (Unit {0})
  grant subject_id relation object_type object_id =
      upsert relation_tuples (is_tuple subject_id relation object_type object_id)
        (record {
          subject_type = subject_type;
          subject_id = subject_id;
          relation = relation;
          object_type = object_type;
          object_id = object_id;
        })
        (λ t. t)

  unfoldable pub revoke : String → Relation → String → String → Exec App (Unit {0})
  revoke subject_id relation object_type object_id = do
    n ← delete_many relation_tuples (is_tuple subject_id relation object_type object_id)
    if n == 0 then throw (not_found "Relation tuple not found.") else pure tt

  unfoldable pub check : String → Relation → String → String → Exec App Bool
  unfolding grantors_of
  check subject_id required object_type object_id = do
    tuple ←
        find_first relation_tuples
          (λ t. grants subject_id required object_type t && t.object_id == object_id)
    pure (is_some tuple)

  unfoldable pub object_ids_for : String → Relation → String → Exec App (List String)
  unfolding grantors_of
  object_ids_for subject_id required object_type = do
    tuples ← find_many relation_tuples (grants subject_id required object_type)
    pure (map (λ t. t.object_id) tuples)
