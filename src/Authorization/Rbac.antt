-- ===== src/Authorization/Rbac.antt =====
-- src/modules/authorization/rbac/role-permissions.map.ts: the permissions of each role. A text that
-- is no role has no entry (the names that every JavaScript object inherits are taken for no role).
use nest_nexus.Prelude.{String, Option, none, some, List, [], ◌∷◌, ◌==◌, string_eq, if◌then◌else◌}
use nest_nexus.Enums.{
  user_role, moderator, admin, super_admin, Permission, document_read, document_write,
  document_delete, document_read_any,
}

unfoldable pub role_permissions : String → Option (List Permission)
role_permissions role =
    if role == user_role
    then some (document_read ∷ document_write ∷ document_delete ∷ [])
    else if role == moderator
    then some (document_read ∷ document_write ∷ document_delete ∷ document_read_any ∷ [])
    else if role == admin
    then some (document_read ∷ document_write ∷ document_delete ∷ document_read_any ∷ [])
    else if role == super_admin
    then some []
    else none
