-- ===== src/Controllers/Documents.antt =====
-- src/modules/document/document.controller.ts, whose class has the guards of the permissions, the
-- relations and the policies, in this order.
use nest_nexus.Prelude.{ℕ, String, Option, none, some, [], ◌∷◌}
use nest_nexus.Exec.{Exec, pure, ◌>>=◌, ◌>>◌}
use nest_nexus.Prisma.{Prisma, OrderBy}
use nest_nexus.Enums.{document_read, document_write, document_delete, owner, editor}
use nest_nexus.Env.{JwtPayload}
use nest_nexus.Guards.{subject_of}
use nest_nexus.Document.{
  CreateDocumentInput, UpdateDocumentInput, PaginationQuery, ShareDocumentDto, create_document,
  find_all, find_one, update_document, remove, share, unshare,
}
use nest_nexus.Http.{
  Drawn, Body, empty, document, documents, Exchange, on_app, current_user, Decorators, undecorated,
}

pub data Route : Type 0 where
  post_document : CreateDocumentInput → Route
  get_documents : PaginationQuery → Route
  get_document get_preview delete_document : String → Route
  patch_document : String → UpdateDocumentInput → Route
  post_share delete_share : String → ShareDocumentDto → Route

-- The `:id` of the path.
abbrev pub id_param : Route → Option String
id_param (post_document input) = none
id_param (get_documents query) = none
id_param (get_document id) = some id
id_param (get_preview id) = some id
id_param (delete_document id) = some id
id_param (patch_document id input) = some id
id_param (post_share id dto) = some id
id_param (delete_share id dto) = some id

unfoldable pub decorators : Route → Decorators
decorators (post_document input) = record undecorated { permissions = document_write ∷ [] }
decorators (get_documents query) = record undecorated { permissions = document_read ∷ [] }
decorators (get_document id) = record undecorated { permissions = document_read ∷ [] }
decorators (get_preview id) = record undecorated {
  permissions = document_read ∷ [];
  policy = some "document.read";
}
decorators (patch_document id input) = record undecorated {
  permissions = document_write ∷ [];
  relation = some (editor, "document");
}
decorators (delete_document id) = record undecorated {
  permissions = document_delete ∷ [];
  relation = some (owner, "document");
}
decorators (post_share id dto) = record undecorated {
  permissions = document_write ∷ [];
  relation = some (owner, "document");
}
decorators (delete_share id dto) = record undecorated {
  permissions = document_write ∷ [];
  relation = some (owner, "document");
}

module _ ⦃prisma : Prisma⦄ ⦃order : OrderBy⦄ {Byte : Type 0} where
  unfoldable pub run : Route → Option JwtPayload → Drawn Byte → ℕ → Exec Exchange Body
  run (post_document input) found drawn now = do
    me ← current_user found
    out ← on_app (create_document (subject_of me) input drawn.id now)
    pure (document out)
  run (get_documents query) found drawn now = do
    me ← current_user found
    outs ← on_app (find_all (subject_of me) query)
    pure (documents outs)
  run (get_document id) found drawn now = do
    me ← current_user found
    out ← on_app (find_one (subject_of me) id)
    pure (document out)
  run (get_preview id) found drawn now = do
    me ← current_user found
    out ← on_app (find_one (subject_of me) id)
    pure (document out)
  run (patch_document id input) found drawn now = do
    me ← current_user found
    out ← on_app (update_document (subject_of me) id input now)
    pure (document out)
  run (delete_document id) found drawn now = on_app (remove id) >> pure empty
  run (post_share id dto) found drawn now = on_app (share id dto) >> pure empty
  run (delete_share id dto) found drawn now = on_app (unshare id dto) >> pure empty
