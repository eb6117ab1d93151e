-- ===== src/Authorization/Rules.antt =====
-- The rules of the decision, and what the parts of the decision allow.
use nest_nexus.Prelude.{
  ◌≡◌, ◌⊎◌, inl, inr, refl, Bool, true, false, not, Option, none, some, arith, eq_iff, ◌==◌,
  string_eq, if◌then◌else◌, Bool-cases,
}
use nest_nexus.Exec.{Result, ok, pure}
use nest_nexus.Prisma.{list_prisma}
use nest_nexus.Enums.{
  Permission, document_read, document_write, document_delete, document_read_any, permission_eq,
  Relation, owner, editor, viewer, relation_eq,
}
use nest_nexus.Schema.{App}
use nest_nexus.Authorization.Policies.{AuthSubject, evaluate_policy}
use nest_nexus.Authorization.Relations.{check}
use nest_nexus.Authorization.Decision.{
  document_type, DocumentResource, is_super_admin, has_permission,
}
use nest_nexus.Authorization.Related.{IsRelated, check-IsRelated, IsRelated-check}

abbrev pub relation_for : Permission → Option Relation
relation_for document_read = some viewer
relation_for document_write = some editor
relation_for document_delete = some owner
relation_for document_read_any = none

-- The rules by which an action on a document is allowed.
pub data Allowed (s : App) (u : AuthSubject) (a : Permission) (r : DocumentResource) : Type 0 where
  as_super_admin : is_super_admin (some u) ≡ true → Allowed s u a r
  by_read_any :
      a ≡ document_read
      → has_permission (some u) document_read ≡ true
      → has_permission (some u) document_read_any ≡ true
      → Allowed s u a r
  by_visibility :
      a ≡ document_read
      → has_permission (some u) document_read ≡ true
      → (r.attrs.visibility ≡ "public") ⊎ (r.attrs.visibility ≡ "internal")
      → Allowed s u a r
  by_ownership :
      (required : Relation)
      → relation_for a ≡ some required
      → has_permission (some u) a ≡ true
      → r.attrs.owner_id ≡ u.sub
      → Allowed s u a r
  by_relation :
      (required : Relation)
      → relation_for a ≡ some required
      → has_permission (some u) a ≡ true
      → IsRelated s u.sub required r.id
      → Allowed s u a r

pub policy_rules :
    (u : AuthSubject) (r : DocumentResource)
    → evaluate_policy "document.read" (record { user = u; resource = r.attrs }) ≡ true
    → ((r.attrs.visibility ≡ "public") ⊎ (r.attrs.visibility ≡ "internal"))
      ⊎ (r.attrs.owner_id ≡ u.sub)
unfolding evaluate_policy
policy_rules u r = ground (
  arith,
  eq_iff r.attrs.visibility "public",
  eq_iff r.attrs.visibility "internal",
  eq_iff r.attrs.owner_id u.sub,
)

-- The common shape of the write and the delete branch.
module _ (u : AuthSubject) (a : Permission) (required : Relation) (r : DocumentResource)
    (s : App) where
  abbrev pub gated : Result Bool
  gated =
      ((if not (has_permission (some u) a)
          then pure false
          else if r.attrs.owner_id == u.sub
          then pure true
          else check u.sub required document_type r.id)
        s).0

  pub gated_sound : relation_for a ≡ some required → gated ≡ ok true → Allowed s u a r
  gated_sound e h = elim (Bool-cases (has_permission (some u) a)) [
    | inr closed ↦ cc (rw (closed, gated) at h)
    | inl scoped ↦ elim (Bool-cases (r.attrs.owner_id == u.sub)) [
      | inl own ↦ by_ownership required e scoped ((eq_iff _ _).0 own)
      | inr foreign ↦
          by_relation required e scoped
            (check-IsRelated u.sub required r.id s (rw (scoped, foreign, gated) at h))
    ]
  ]

  pub gated_own : has_permission (some u) a ≡ true → r.attrs.owner_id ≡ u.sub → gated ≡ ok true
  gated_own scoped own = rw (scoped, (eq_iff r.attrs.owner_id u.sub).1 own, gated)

  pub gated_related :
      has_permission (some u) a ≡ true → IsRelated s u.sub required r.id → gated ≡ ok true
  gated_related scoped related = elim (Bool-cases (r.attrs.owner_id == u.sub)) [
    | inl own ↦ rw (scoped, own, gated)
    | inr foreign ↦ rw (scoped, foreign, gated) (IsRelated-check u.sub required r.id s related)
  ]

-- The read branch.
module _ (u : AuthSubject) (r : DocumentResource) (s : App) where
  abbrev pub visible : Bool
  visible = evaluate_policy "document.read" (record { user = u; resource = r.attrs })

  abbrev pub gated_read : Result Bool
  gated_read =
      ((if not (has_permission (some u) document_read)
          then pure false
          else if has_permission (some u) document_read_any
          then pure true
          else if visible
          then pure true
          else check u.sub viewer document_type r.id)
        s).0

  pub visible_sound :
      has_permission (some u) document_read ≡ true → visible ≡ true → Allowed s u document_read r
  visible_sound scoped h = elim (policy_rules u r h) [
    | inl shown ↦ by_visibility refl scoped shown
    | inr own ↦ by_ownership viewer refl scoped own
  ]

  pub gated_read_sound : gated_read ≡ ok true → Allowed s u document_read r
  gated_read_sound h = elim (Bool-cases (has_permission (some u) document_read)) [
    | inr closed ↦ cc (rw (closed, gated_read) at h)
    | inl scoped ↦ elim (Bool-cases (has_permission (some u) document_read_any)) [
      | inl wide ↦ by_read_any refl scoped wide
      | inr narrow ↦ elim (Bool-cases visible) [
        | inl shown ↦ visible_sound scoped shown
        | inr hidden ↦
            by_relation viewer refl scoped
              (check-IsRelated u.sub viewer r.id s (rw (scoped, narrow, hidden, gated_read) at h))
      ]
    ]
  ]

  pub gated_read-visible :
      has_permission (some u) document_read ≡ true → visible ≡ true → gated_read ≡ ok true
  gated_read-visible scoped shown = elim (Bool-cases (has_permission (some u) document_read_any)) [
    | inl wide ↦ rw (scoped, wide, gated_read)
    | inr narrow ↦ rw (scoped, narrow, shown, gated_read)
  ]

  pub gated_read_related :
      has_permission (some u) document_read ≡ true
      → IsRelated s u.sub viewer r.id
      → gated_read ≡ ok true
  gated_read_related scoped related = elim (Bool-cases visible) [
    | inl shown ↦ gated_read-visible scoped shown
    | inr hidden ↦ elim (Bool-cases (has_permission (some u) document_read_any)) [
      | inl wide ↦ rw (scoped, wide, gated_read)
      | inr narrow ↦
          rw (scoped, narrow, hidden, gated_read) (IsRelated-check u.sub viewer r.id s related)
    ]
  ]
