-- ===== src/Enums.antt =====
-- src/common/enums: the roles, the permissions (scopes) and, from the ReBAC service, the relations.
-- A user's roles are texts in the database and in the token, so the roles are constants.
use nest_nexus.Prelude.{String, ◌≡◌, ◌↔◌, Bool, true, false, arith, Eq}

abbrev pub user_role : String
user_role = "user"

abbrev pub moderator : String
moderator = "moderator"

abbrev pub admin : String
admin = "admin"

abbrev pub super_admin : String
super_admin = "super_admin"

pub data Permission : Type 0 where
  document_read document_write document_delete document_read_any : Permission

abbrev same_permission : Permission → Permission → Bool
same_permission document_read document_read = true
same_permission document_write document_write = true
same_permission document_delete document_delete = true
same_permission document_read_any document_read_any = true
same_permission _ _ = false

pub same_permission_iff : (a b : Permission) → (same_permission a b ≡ true) ↔ (a ≡ b)
same_permission_iff a b = ground arith

instance abbrev pub permission_eq : Eq Permission
permission_eq = record { beq = same_permission; beq_iff = same_permission_iff }

pub data Relation : Type 0 where
  owner editor viewer : Relation

abbrev same_relation : Relation → Relation → Bool
same_relation owner owner = true
same_relation editor editor = true
same_relation viewer viewer = true
same_relation _ _ = false

pub same_relation_iff : (a b : Relation) → (same_relation a b ≡ true) ↔ (a ≡ b)
same_relation_iff a b = ground arith

instance abbrev pub relation_eq : Eq Relation
relation_eq = record { beq = same_relation; beq_iff = same_relation_iff }
