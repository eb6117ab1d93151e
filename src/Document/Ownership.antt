-- ===== src/Document/Ownership.antt =====
-- The owner relation against the owner column, over runs of the document service.
use nest_nexus.Prelude.{ℕ, ◌≤◌, String, ◌≡◌, refl, ◌∙◌, true, arith, string_eq, nat_eq, Has}
use nest_nexus.Exec.{ok}
use nest_nexus.Prisma.{Prisma, PrismaLaws, list_prisma, by_lists}
use nest_nexus.Enums.{Relation, owner, editor, viewer, relation_eq}
use nest_nexus.Schema.{Document, App}
use nest_nexus.Authorization.Policies.{AuthSubject}
use nest_nexus.Authorization.Relations.{check}
use nest_nexus.Authorization.Related.{strength, check-IsRelated}
use nest_nexus.Document.{
  CreateDocumentInput, UpdateDocumentInput, ShareDocumentDto, create_document, update_document,
  remove, share, unshare,
}
use nest_nexus.Document.Owners.{
  OwnersMatch, creates-OwnersMatch, updates-OwnersMatch, removes-OwnersMatch, shares-OwnersMatch,
  unshares-OwnersMatch,
}

-- One call of the service that writes, whatever it answers.
pub data Step (prisma : Prisma) (s : App) : App → Type 0 where
  creates :
      (user : AuthSubject) (dto : CreateDocumentInput) (id : String) (now : ℕ)
      → Step prisma s (create_document ⦃prisma = prisma⦄ user dto id now s).1
  updates :
      (user : AuthSubject) (id : String) (dto : UpdateDocumentInput) (now : ℕ)
      → Step prisma s (update_document ⦃prisma = prisma⦄ user id dto now s).1
  removes : (id : String) → Step prisma s (remove ⦃prisma = prisma⦄ id s).1
  shares :
      (id : String) (dto : ShareDocumentDto) → Step prisma s (share ⦃prisma = prisma⦄ id dto s).1
  unshares :
      (id : String) (dto : ShareDocumentDto) → Step prisma s (unshare ⦃prisma = prisma⦄ id dto s).1

pub data Reach (prisma : Prisma) (s : App) : App → Type 0 where
  here : Reach prisma s s
  next : {t u : App} → Reach prisma s t → Step prisma t u → Reach prisma s u

Step-OwnersMatch : {s t : App} → Step list_prisma s t → OwnersMatch s → OwnersMatch t
Step-OwnersMatch {s} (creates user dto id now) inv = creates-OwnersMatch user dto id now s inv
Step-OwnersMatch {s} (updates user id dto now) inv = updates-OwnersMatch user id dto now s inv
Step-OwnersMatch {s} (removes id) inv = removes-OwnersMatch id s inv
Step-OwnersMatch {s} (shares id dto) inv = shares-OwnersMatch id dto s inv
Step-OwnersMatch {s} (unshares id dto) inv = unshares-OwnersMatch id dto s inv

Reach-OwnersMatch : {s t : App} → Reach list_prisma s t → OwnersMatch s → OwnersMatch t
Reach-OwnersMatch here inv = inv
Reach-OwnersMatch (next run step) inv = Step-OwnersMatch step (Reach-OwnersMatch run inv)

strongest : (r : Relation) → 3 ≤ strength r → r ≡ owner
strongest owner h = refl
strongest editor h = absurd (omega arith)
strongest viewer h = absurd (omega arith)

only_owner :
    (s t : App) (sub id : String)
    → OwnersMatch s
    → Reach list_prisma s t
    → (check sub owner "document" id t).0 ≡ ok true
    → (d : Document) × Has d t.documents × (d.id ≡ id) × (d.owner_id ≡ sub)
only_owner s t sub id inv run h =
    let (u, place, _, is_sub, type, is_id, enough) = check-IsRelated sub owner id t h in
    let (d, stored, e, f) = Reach-OwnersMatch run inv u place type (strongest u.relation enough) in
    (d, stored, e ∙ is_id, f ∙ is_sub)

module _ {prisma : Prisma} (laws : PrismaLaws prisma) where
  -- From a state in which every owner tuple names the owner of its document, whatever calls of the
  -- document service are made, failing ones included, a user passes the check for the owner relation
  -- on a document only if the document is stored with that user as its owner.
  pub Reach-only_owner :
      (s t : App) (sub id : String)
      → OwnersMatch s
      → Reach prisma s t
      → (check ⦃prisma = prisma⦄ sub owner "document" id t).0 ≡ ok true
      → (d : Document) × Has d t.documents × (d.id ≡ id) × (d.owner_id ≡ sub)
  Reach-only_owner = rw (by_lists laws) only_owner
