-- ===== src/Authorization/Decision.antt =====
-- src/modules/authorization/authorization.service.ts: the composed decision on one document, and the
-- filter of the documents that a user may read.
use nest_nexus.Prelude.{
  String, Bool, true, false, not, ◌||◌, Option, none, some, List, [], ◌∷◌, ◌==◌, string_eq,
  if◌then◌else◌, any, includes, is_nil,
}
use nest_nexus.Exec.{Exec, pure, ◌>>=◌}
use nest_nexus.Prisma.{Prisma}
use nest_nexus.Enums.{
  super_admin, Permission, document_read, document_write, document_delete, document_read_any,
  permission_eq, owner, editor, viewer,
}
use nest_nexus.Schema.{Document, App}
use nest_nexus.Authorization.Rbac.{role_permissions}
use nest_nexus.Authorization.Policies.{AuthSubject, DocumentAttrs, evaluate_policy}
use nest_nexus.Authorization.Relations.{check, object_ids_for}

pub record DocumentResource : Type 0 where
  pub attrs : DocumentAttrs
  pub id : String

-- `asResource` of src/modules/document/document.service.ts.
abbrev pub as_resource : Document → DocumentResource
as_resource d = record {
  attrs = record { owner_id = d.owner_id; visibility = d.visibility };
  id = d.id;
}

abbrev pub document_type : String
document_type = "document"

unfoldable pub is_super_admin : Option AuthSubject → Bool
is_super_admin none = false
is_super_admin (some user) = includes user.roles super_admin

-- ROLE_PERMISSIONS[role]?.includes(permission)
abbrev pub listed : Option (List Permission) → Permission → Bool
listed none permission = false
listed (some permissions) permission = includes permissions permission

unfoldable pub has_permission : Option AuthSubject → Permission → Bool
unfolding is_super_admin
has_permission none permission = false
has_permission (some user) permission =
    if is_super_admin (some user)
    then true
    else any (λ role. listed (role_permissions role) permission) user.roles

-- A `where` clause on documents: `{}`, or `{ OR: [...] }`.
pub data DocumentClause : Type 0 where
  visibility_in : List String → DocumentClause
  owner_is : String → DocumentClause
  id_in : List String → DocumentClause

pub data DocumentWhere : Type 0 where
  everything : DocumentWhere
  any_of : List DocumentClause → DocumentWhere

-- What Prisma takes a clause to say.
abbrev pub satisfies : Document → DocumentClause → Bool
satisfies d (visibility_in values) = includes values d.visibility
satisfies d (owner_is id) = d.owner_id == id
satisfies d (id_in ids) = includes ids d.id

abbrev pub matches : DocumentWhere → Document → Bool
matches everything d = true
matches (any_of clauses) d = any (satisfies d) clauses

abbrev pub readable_clauses : AuthSubject → List String → List DocumentClause
readable_clauses user viewable_ids =
    visibility_in ("public" ∷ "internal" ∷ [])
    ∷ owner_is user.sub
    ∷ (if is_nil viewable_ids then [] else id_in viewable_ids ∷ [])

module _ ⦃prisma : Prisma⦄ where
  abbrev pub decide_action : AuthSubject → Permission → DocumentResource → Exec App Bool
  decide_action user document_read resource =
      if not (has_permission (some user) document_read)
      then pure false
      else if has_permission (some user) document_read_any
      then pure true
      else if evaluate_policy "document.read" (record { user = user; resource = resource.attrs })
      then pure true
      else check user.sub viewer document_type resource.id
  decide_action user document_write resource =
      if not (has_permission (some user) document_write)
      then pure false
      else if resource.attrs.owner_id == user.sub
      then pure true
      else check user.sub editor document_type resource.id
  decide_action user document_delete resource =
      if not (has_permission (some user) document_delete)
      then pure false
      else if resource.attrs.owner_id == user.sub
      then pure true
      else check user.sub owner document_type resource.id
  decide_action user document_read_any resource = pure false

  unfoldable pub can : Option AuthSubject → Permission → DocumentResource → Exec App Bool
  unfolding is_super_admin
  can none action resource = pure false
  can (some user) action resource =
      if is_super_admin (some user) then pure true else decide_action user action resource

  abbrev readable_to : AuthSubject → Exec App (Option DocumentWhere)
  readable_to user =
      if is_super_admin (some user) || has_permission (some user) document_read_any
      then pure (some everything)
      else do
        viewable_ids ← object_ids_for user.sub viewer document_type
        pure (some (any_of (readable_clauses user viewable_ids)))

  unfoldable pub readable_document_where : Option AuthSubject → Exec App (Option DocumentWhere)
  readable_document_where none = pure none
  readable_document_where (some user) =
      if not (has_permission (some user) document_read) then pure none else readable_to user
