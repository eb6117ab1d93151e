-- ===== src/Authorization/Tests.antt =====
-- Decisions on sample documents.
use nest_nexus.Prelude.{true, some, ◌↔◌, ◌≡◌, refl}
use nest_nexus.Exec.{ok}
use nest_nexus.Prisma.{list_prisma, list_prisma_laws}
use nest_nexus.Enums.{document_read, document_write, document_delete}
use nest_nexus.Samples.{ada_subject, own_document, document_of, sample}
use nest_nexus.Authorization.Decision.{as_resource, has_permission, can, readable_document_where}
use nest_nexus.Authorization.Rbac.{role_permissions}
use nest_nexus.Authorization.Readable.{admits, can-eq-admits}
use nest_nexus.Authorization.Rules.{Allowed}
use nest_nexus.Authorization.Table.{can-Allowed}
use nest_nexus.Authorization.Order.{can-weaker}

can-eq-admits_example :
    (can
      (some ada_subject)
      document_read
      (as_resource (document_of "d2" "root" "private"))
      sample).0
    ≡ admits
        (readable_document_where (some ada_subject) sample).0
        (document_of "d2" "root" "private")
can-eq-admits_example =
    can-eq-admits list_prisma_laws (some ada_subject) (document_of "d2" "root" "private") sample

can-Allowed_example :
    ((can (some ada_subject) document_delete (as_resource own_document) sample).0 ≡ ok true)
    ↔ Allowed sample ada_subject document_delete (as_resource own_document)
can-Allowed_example =
    can-Allowed list_prisma_laws ada_subject document_delete (as_resource own_document) sample

owner_deletes :
    (can (some ada_subject) document_delete (as_resource own_document) sample).0 ≡ ok true
unfolding can has_permission role_permissions
owner_deletes = refl

can-weaker_example :
    (can (some ada_subject) document_write (as_resource own_document) sample).0 ≡ ok true
can-weaker_example =
    can-weaker list_prisma_laws ada_subject document_delete (as_resource own_document) sample
      owner_deletes
