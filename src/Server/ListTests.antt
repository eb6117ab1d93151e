-- ===== src/Server/ListTests.antt =====
-- The list of the documents, as a client gets it.
use nest_nexus.Prelude.{◌≤◌, ◌≡◌, refl, List, [], ◌∷◌, length}
use nest_nexus.Exec.{ok}
use nest_nexus.Prisma.{list_prisma, list_prisma_laws}
use nest_nexus.Samples.{
  own_document, document_of, sample_env, open_cipher, no_totp, stored_order, stored_order_laws,
}
use nest_nexus.Cache.{map_cache}
use nest_nexus.Document
use nest_nexus.Document.{PaginationQuery, DocumentOutput, to_output}
use nest_nexus.Http.{Exchange}
use nest_nexus.Http
use nest_nexus.Controllers.Documents
use nest_nexus.Controllers.Documents.{get_documents}
use nest_nexus.Guards
use nest_nexus.Validation
use nest_nexus.Authorization.Decision.{has_permission, readable_document_where}
use nest_nexus.Authorization.Rbac.{role_permissions}
use nest_nexus.Authorization.Relations.{object_ids_for}
use nest_nexus.Auth.JwtStrategy.{authenticate, validate, lookup_entry}
use nest_nexus.Server
use nest_nexus.Server.{documents, serve, opened}
use nest_nexus.Server.Fixtures.{no_ceremony, drawn, from, server}
use nest_nexus.Server.Bounds.{serve-bounded}

abbrev first_page : PaginationQuery
first_page = record { skip = 0; take = 2 }

abbrev ada_page : List DocumentOutput
ada_page = to_output own_document ∷ to_output (document_of "d2" "root" "private") ∷ []

ada_lists :
    (y : Exchange) × (serve
        (documents (get_documents first_page))
        (from "ada")
        drawn
        40
        (opened server)
      ≡ (ok (Http.documents ada_page), y))
unfolding serve Server.admitted Server.decorators Documents.decorators authenticate validate
    lookup_entry Server.class_guards Guards.permissions_guard has_permission role_permissions
    Guards.relation_guard Guards.policy_guard Server.is_valid Validation.documents_valid Server.run
    Documents.run Document.find_all readable_document_where object_ids_for
ada_lists = (_, refl)

serve-bounded_example : (length ada_page ≤ 100) × (length ada_page ≤ 2) × ◌≤◌ 1 2
serve-bounded_example =
    serve-bounded list_prisma_laws stored_order_laws first_page (from "ada") drawn 40
      (opened server) (ada_lists.0) ada_page (ada_lists.1)
