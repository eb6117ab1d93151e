-- ===== src/Authorization/Order.antt =====
-- The actions on a document against each other.
use nest_nexus.Prelude.{◌≤◌, String, ◌≡◌, refl, true, some, arith, inl, inr, Bool-cases, any_mono}
use nest_nexus.Exec.{ok}
use nest_nexus.Prisma.{Prisma, PrismaLaws}
use nest_nexus.Enums.{
  Permission, document_read, document_write, document_delete, document_read_any, permission_eq,
  Relation, editor, viewer,
}
use nest_nexus.Schema.{App}
use nest_nexus.Authorization.Rbac.{role_permissions}
use nest_nexus.Authorization.Policies.{AuthSubject}
use nest_nexus.Authorization.Decision.{
  DocumentResource, is_super_admin, has_permission, listed, can,
}
use nest_nexus.Authorization.Related.{strength}
use nest_nexus.Authorization.Rules.{
  relation_for, Allowed, as_super_admin, by_read_any, by_visibility, by_ownership, by_relation,
}
use nest_nexus.Authorization.Table.{can-Allowed}

-- The action that each action includes.
abbrev pub weaker : Permission → Permission
weaker document_delete = document_write
weaker document_write = document_read
weaker p = p

role-weaker :
    (p : Permission) (role : String)
    → listed (role_permissions role) p ≡ true
    → listed (role_permissions role) (weaker p) ≡ true
unfolding role_permissions
role-weaker document_delete role h = ground arith
role-weaker _ role h = ground arith

has_permission-weaker :
    (u : AuthSubject) (p : Permission)
    → has_permission (some u) p ≡ true
    → has_permission (some u) (weaker p) ≡ true
unfolding has_permission
has_permission-weaker u p h = elim (Bool-cases (is_super_admin (some u))) [
  | inl super ↦ rw super
  | inr ordinary ↦ rw ordinary (any_mono (role-weaker p) u.roles (rw ordinary at h))
]

weaker_relation :
    (a : Permission) {b : Relation}
    → relation_for a ≡ some b
    → (c : Relation) × (relation_for (weaker a) ≡ some c) × (strength c ≤ strength b)
weaker_relation document_read {b} h = (viewer, refl, ground arith)
weaker_relation document_write {b} h = (viewer, refl, ground arith)
weaker_relation document_delete {b} h = (editor, refl, ground arith)
weaker_relation document_read_any {b} h = cc

Allowed-weaker :
    (s : App) (u : AuthSubject) (a : Permission) (r : DocumentResource)
    → Allowed s u a r
    → Allowed s u (weaker a) r
Allowed-weaker s u a r (as_super_admin h) = as_super_admin h
Allowed-weaker s u a r (by_read_any e p q) = by_read_any (rw e) p q
Allowed-weaker s u a r (by_visibility e p v) = by_visibility (rw e) p v
Allowed-weaker s u a r (by_ownership b e p own) =
    let (c, f, _) = weaker_relation a e in by_ownership c f (has_permission-weaker u a p) own
Allowed-weaker s u a r (by_relation b e p (t, place, x, y, z, w, enough)) =
    let (c, f, le) = weaker_relation a e in
    by_relation c f (has_permission-weaker u a p) (t, place, x, y, z, w, omega arith)

module _ {prisma : Prisma} (laws : PrismaLaws prisma) where
  -- Whoever may delete a document may write it, and whoever may write it may read it.
  pub can-weaker :
      (u : AuthSubject) (a : Permission) (r : DocumentResource) (s : App)
      → (can ⦃prisma = prisma⦄ (some u) a r s).0 ≡ ok true
      → (can ⦃prisma = prisma⦄ (some u) (weaker a) r s).0 ≡ ok true
  can-weaker u a r s h =
      (can-Allowed laws u (weaker a) r s).1
        (Allowed-weaker s u a r ((can-Allowed laws u a r s).0 h))
