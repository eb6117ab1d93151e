-- ===== src/Authorization/Table.antt =====
-- The decision against the table of its rules.
use nest_nexus.Prelude.{
  ◌≡◌, ◌↔◌, ◌⊎◌, inl, inr, refl, true, false, some, arith, eq_iff, string_eq, Bool-cases,
}
use nest_nexus.Exec.{ok}
use nest_nexus.Prisma.{Prisma, PrismaLaws, list_prisma, by_lists}
use nest_nexus.Enums.{
  Permission, document_read, document_write, document_delete, document_read_any, permission_eq,
  Relation, owner, editor, relation_eq,
}
use nest_nexus.Schema.{App}
use nest_nexus.Authorization.Policies.{AuthSubject, evaluate_policy}
use nest_nexus.Authorization.Decision.{DocumentResource, is_super_admin, decide_action, can}
use nest_nexus.Authorization.Related.{IsRelated}
use nest_nexus.Authorization.Rules.{
  Allowed, gated_sound, gated_own, gated_related, gated_read_sound, gated_read-visible,
  gated_read_related, as_super_admin, by_read_any, by_visibility, by_ownership, by_relation,
}

can_sound :
    (u : AuthSubject) (a : Permission) (r : DocumentResource) (s : App)
    → (can (some u) a r s).0 ≡ ok true
    → Allowed s u a r
unfolding can
can_sound u a r s h = elim (Bool-cases (is_super_admin (some u))) [
  | inl super ↦ as_super_admin super
  | inr ordinary ↦ by_action a (rw ordinary at h)
]
  where
    by_action : (a : Permission) → (decide_action u a r s).0 ≡ ok true → Allowed s u a r
    by_action document_read h = gated_read_sound u r s h
    by_action document_write h = gated_sound u document_write editor r s refl h
    by_action document_delete h = gated_sound u document_delete owner r s refl h
    by_action document_read_any h = cc

rules-policy :
    (u : AuthSubject) (r : DocumentResource)
    → ((r.attrs.visibility ≡ "public") ⊎ (r.attrs.visibility ≡ "internal"))
      ⊎ (r.attrs.owner_id ≡ u.sub)
    → evaluate_policy "document.read" (record { user = u; resource = r.attrs }) ≡ true
unfolding evaluate_policy
rules-policy u r h = ground (
  arith,
  eq_iff r.attrs.visibility "public",
  eq_iff r.attrs.visibility "internal",
  eq_iff r.attrs.owner_id u.sub,
)

module _ (u : AuthSubject) (r : DocumentResource) (s : App) where
  for_relation :
      {a b : Relation} → some a ≡ some b → IsRelated s u.sub b r.id → IsRelated s u.sub a r.id
  for_relation {a} {b} e h = let same : a ≡ b = cc in rw same h

  by_action_complete :
      (a : Permission)
      → is_super_admin (some u) ≡ false
      → Allowed s u a r
      → (decide_action u a r s).0 ≡ ok true
  by_action_complete document_read ordinary (as_super_admin h) = cc
  by_action_complete document_read ordinary (by_read_any e p q) = rw (p, q)
  by_action_complete document_read ordinary (by_visibility e p v) =
      gated_read-visible u r s p (rules-policy u r (inl v))
  by_action_complete document_read ordinary (by_ownership b e p own) =
      gated_read-visible u r s p (rules-policy u r (inr own))
  by_action_complete document_read ordinary (by_relation b e p h) =
      gated_read_related u r s p (for_relation e h)
  by_action_complete document_write ordinary (as_super_admin h) = cc
  by_action_complete document_write ordinary (by_ownership b e p own) =
      gated_own u document_write editor r s p own
  by_action_complete document_write ordinary (by_relation b e p h) =
      gated_related u document_write editor r s p (for_relation e h)
  by_action_complete document_write ordinary (by_read_any e p q) = cc
  by_action_complete document_write ordinary (by_visibility e p v) = cc
  by_action_complete document_delete ordinary (as_super_admin h) = cc
  by_action_complete document_delete ordinary (by_ownership b e p own) =
      gated_own u document_delete owner r s p own
  by_action_complete document_delete ordinary (by_relation b e p h) =
      gated_related u document_delete owner r s p (for_relation e h)
  by_action_complete document_delete ordinary (by_read_any e p q) = cc
  by_action_complete document_delete ordinary (by_visibility e p v) = cc
  by_action_complete document_read_any ordinary (as_super_admin h) = cc
  by_action_complete document_read_any ordinary (by_read_any e p q) = cc
  by_action_complete document_read_any ordinary (by_visibility e p v) = cc
  by_action_complete document_read_any ordinary (by_ownership b e p own) = cc
  by_action_complete document_read_any ordinary (by_relation b e p h) = cc

can_complete :
    (u : AuthSubject) (a : Permission) (r : DocumentResource) (s : App)
    → Allowed s u a r
    → (can (some u) a r s).0 ≡ ok true
unfolding can
can_complete u a r s h = elim (Bool-cases (is_super_admin (some u))) [
  | inl super ↦ rw super
  | inr ordinary ↦ rw ordinary (by_action_complete u r s a ordinary h)
]

pub can_iff_lists :
    (u : AuthSubject) (a : Permission) (r : DocumentResource) (s : App)
    → ((can (some u) a r s).0 ≡ ok true) ↔ Allowed s u a r
can_iff_lists u a r s = (can_sound u a r s, can_complete u a r s)

module _ {prisma : Prisma} (laws : PrismaLaws prisma) where
  -- A user is allowed an action on a document exactly when one of the rules of the table allows it:
  -- super admin, the wide read scope, visibility, ownership, or a relation that is strong enough.
  pub can-Allowed :
      (u : AuthSubject) (a : Permission) (r : DocumentResource) (s : App)
      → ((can ⦃prisma = prisma⦄ (some u) a r s).0 ≡ ok true) ↔ Allowed s u a r
  can-Allowed = rw (by_lists laws) can_iff_lists
