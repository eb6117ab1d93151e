-- ===== src/Document.antt =====
-- src/modules/document/document.service.ts, with the records of its `dto` folder. The id that the
-- database generates and the time are arguments.
pub mod Reads
pub mod Pages
pub mod Grants
pub mod Owners
pub mod Ownership
pub mod Removal
mod Tests
use Prim.Native.String
use nest_nexus.Prelude.{
  ℕ, String, Bool, true, false, not, ◌&&◌, Option, none, some, List, [], map, ◌==◌, string_eq,
  if◌then◌else◌, or_else, is_some,
}
use nest_nexus.Exec.{
  Exception, prisma_known, bad_request, forbidden, not_found, Exec, pure, throw, catch, require,
  ◌>>=◌, ◌>>◌,
}
use nest_nexus.Prisma.{Prisma, OrderBy}
use nest_nexus.Enums.{document_read, Relation, owner, relation_eq}
use nest_nexus.Schema.{User, Document, RelationTuple, App}
use nest_nexus.Store.{
  users, documents, relation_tuples, find_unique, find_page, create, update, delete, delete_many,
}
use nest_nexus.Authorization.Policies.{AuthSubject}
use nest_nexus.Authorization.Relations.{grant, revoke}
use nest_nexus.Authorization.Decision.{
  DocumentWhere, matches, document_type, as_resource, is_super_admin, can, readable_document_where,
}

pub record CreateDocumentInput : Type 0 where
  pub title : String
  pub body : String
  pub visibility : Option String

pub record UpdateDocumentInput : Type 0 where
  pub title : Option String
  pub body : Option String
  pub visibility : Option String

pub record PaginationQuery : Type 0 where
  pub skip : ℕ
  pub take : ℕ

pub record ShareDocumentDto : Type 0 where
  pub subject_id : String
  pub relation : Relation

pub record DocumentOutput : Type 0 where
  pub id : String
  pub title : String
  pub body : String
  pub owner_id : String
  pub visibility : String
  pub created_at : ℕ
  pub updated_at : ℕ

abbrev pub to_output : Document → DocumentOutput
to_output d = record {
  id = d.id;
  title = d.title;
  body = d.body;
  owner_id = d.owner_id;
  visibility = d.visibility;
  created_at = d.created_at;
  updated_at = d.updated_at;
}

abbrev pub missing_document : String → Exception
missing_document id = not_found (String.◌++◌ "Document with id " (String.◌++◌ id " not found."))

-- `rethrowNotFound`: a record that is not there becomes a 404 with its id.
abbrev pub rethrow_not_found : {A : Type 0} → String → Exception → Exec App A
rethrow_not_found id (prisma_known code) =
    if code == "P2025" then throw (missing_document id) else throw (prisma_known code)
rethrow_not_found id e = throw e

abbrev pub assert_shareable_relation : Relation → Exec App (Unit {0})
assert_shareable_relation relation =
    if relation == owner
    then throw (bad_request "Ownership cannot be granted or revoked via share.")
    else pure tt

-- The fields that the input gives, over the row.
abbrev pub patched : UpdateDocumentInput → ℕ → Document → Document
patched dto now d = record d {
  title = or_else dto.title d.title;
  body = or_else dto.body d.body;
  visibility = or_else dto.visibility d.visibility;
  updated_at = now;
}

abbrev pub new_document : AuthSubject → CreateDocumentInput → String → ℕ → Document
new_document user dto id now = record {
  id = id;
  title = dto.title;
  body = dto.body;
  owner_id = user.sub;
  visibility = or_else dto.visibility "private";
  created_at = now;
  updated_at = now;
}

module _ ⦃prisma : Prisma⦄ where
  abbrev pub get_or_throw : String → Exec App Document
  get_or_throw id = do
    doc ← find_unique documents (λ d. d.id == id)
    require doc (missing_document id)

  unfoldable pub create_document :
      AuthSubject → CreateDocumentInput → String → ℕ → Exec App DocumentOutput
  create_document user dto id now = do
    create documents (new_document user dto id now)
    grant user.sub owner document_type id
    pure (to_output (new_document user dto id now))

  abbrev list_page :
      ⦃order : OrderBy⦄ → PaginationQuery → Option DocumentWhere → Exec App (List DocumentOutput)
  list_page query none = pure []
  list_page query (some w) = do
    docs ← find_page documents (matches w) (λ d. some d.created_at) query.skip query.take
    pure (map to_output docs)

  unfoldable pub find_all :
      ⦃order : OrderBy⦄ → AuthSubject → PaginationQuery → Exec App (List DocumentOutput)
  find_all user query = do
    filter_clause ← readable_document_where (some user)
    list_page query filter_clause

  unfoldable pub find_one : AuthSubject → String → Exec App DocumentOutput
  find_one user id = do
    doc ← get_or_throw id
    allowed ← can (some user) document_read (as_resource doc)
    if allowed then pure (to_output doc) else throw (missing_document id)

  abbrev owner_only : AuthSubject → Document → Exec App (Unit {0})
  owner_only user doc =
      if doc.owner_id == user.sub
      then pure tt
      else throw (forbidden "Only the owner can change a document’s visibility.")

  -- Only the owner, or a super admin, changes the visibility.
  abbrev check_visibility_change : AuthSubject → String → UpdateDocumentInput → Exec App (Unit {0})
  check_visibility_change user id dto =
      if is_some dto.visibility && not (is_super_admin (some user))
      then get_or_throw id >>= owner_only user
      else pure tt

  unfoldable pub update_document :
      AuthSubject → String → UpdateDocumentInput → ℕ → Exec App DocumentOutput
  update_document user id dto now = do
    check_visibility_change user id dto
    updated ← catch (update documents (λ d. d.id == id) (patched dto now)) (rethrow_not_found id)
    pure (to_output updated)

  unfoldable pub remove : String → Exec App (Unit {0})
  remove id =
      catch
        (prisma.transaction (
          delete documents (λ d. d.id == id)
          >> delete_many relation_tuples (λ t. t.object_type == document_type && t.object_id == id)
          >> pure tt))
        (rethrow_not_found id)

  unfoldable pub share : String → ShareDocumentDto → Exec App (Unit {0})
  share id dto = do
    assert_shareable_relation dto.relation
    get_or_throw id
    target ← find_unique users (λ u. u.id == dto.subject_id)
    require target (bad_request "Target user does not exist.")
    grant dto.subject_id dto.relation document_type id

  unfoldable pub unshare : String → ShareDocumentDto → Exec App (Unit {0})
  unshare id dto = do
    assert_shareable_relation dto.relation
    revoke dto.subject_id dto.relation document_type id
