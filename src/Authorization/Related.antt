-- ===== src/Authorization/Related.antt =====
-- src/modules/authorization/rebac: the check of a relation, as a statement on the stored tuples.
use nest_nexus.Prelude.{
  ℕ, ◌≤◌, String, ◌≡◌, ◌↔◌, refl, sym, ap, ◌∙◌, Bool, true, ◌&&◌, arith, eq_iff, ◌==◌, string_eq,
  any, is_some-find, any-Has, Has-any, Has,
}
use nest_nexus.Exec.{Result, ok}
use nest_nexus.Prisma.{list_prisma}
use nest_nexus.Enums.{permission_eq, Relation, owner, editor, viewer, relation_eq}
use nest_nexus.Schema.{RelationTuple, App}
use nest_nexus.Authorization.Relations.{grants, grantors_of, check}
use nest_nexus.Authorization.Decision.{document_type}

abbrev pub strength : Relation → ℕ
strength owner = 3
strength editor = 2
strength viewer = 1

-- A stored tuple gives the user a relation to the document that is at least as strong.
abbrev pub IsRelated : App → String → Relation → String → Type 0
IsRelated s sub required id =
    (t : RelationTuple) × Has t s.relation_tuples
    × (t.subject_type ≡ "user")
    × (t.subject_id ≡ sub)
    × (t.object_type ≡ "document")
    × (t.object_id ≡ id)
    × (strength required ≤ strength t.relation)

pub grants-strength :
    (required : Relation) (sub id : String) (t : RelationTuple)
    → ((grants sub required document_type t && t.object_id == id) ≡ true) ↔ (
        (t.subject_type ≡ "user")
        × (t.subject_id ≡ sub)
        × (t.object_type ≡ "document")
        × (t.object_id ≡ id)
        × (strength required ≤ strength t.relation))
unfolding grantors_of
grants-strength owner sub id t = ground (
  arith,
  eq_iff t.subject_type "user",
  eq_iff t.subject_id sub,
  eq_iff t.object_type "document",
  eq_iff t.object_id id,
)
grants-strength _ sub id t = ground (
  arith,
  eq_iff t.subject_type "user",
  eq_iff t.subject_id sub,
  eq_iff t.object_type "document",
  eq_iff t.object_id id,
)

pub ok-injective : {a b : Bool} → ok a ≡ ok b → a ≡ b
ok-injective h = cc

pub check-eq-any :
    (sub : String) (required : Relation) (id : String) (s : App)
    → check sub required document_type id s ≡ (
      ok (any (λ t. grants sub required document_type t && t.object_id == id) s.relation_tuples),
      s,
    )
unfolding check
check-eq-any sub required id s = rw is_some-find refl

pub check-IsRelated :
    (sub : String) (required : Relation) (id : String) (s : App)
    → (check sub required document_type id s).0 ≡ ok true
    → IsRelated s sub required id
check-IsRelated sub required id s h =
    let (t, place, passes) =
      any-Has (λ t. grants sub required document_type t && t.object_id == id) s.relation_tuples
        (ok-injective
          (ap (λ (r : Result Bool × App). r.0) (sym (check-eq-any sub required id s)) ∙ h)) in
    let (a, b, c, d, e) = (grants-strength required sub id t).0 passes in (t, place, a, b, c, d, e)

pub IsRelated-check :
    (sub : String) (required : Relation) (id : String) (s : App)
    → IsRelated s sub required id
    → (check sub required document_type id s).0 ≡ ok true
IsRelated-check sub required id s (t, place, a, b, c, d, e) =
    rw check-eq-any
      (ap ok (Has-any _ place ((grants-strength required sub id t).1 (a, b, c, d, e))))
