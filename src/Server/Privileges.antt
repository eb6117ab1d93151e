-- ===== src/Server/Privileges.antt =====
-- What the caller of a route of the documents holds when the call answers.
use nest_nexus.Prelude.{
  ℕ, String, ◌≡◌, ◌⊎◌, refl, arith, true, false, some, [], ◌∷◌, ◌==◌, string_eq, find,
}
use nest_nexus.Exec.{ok, bind-ok, Exec, pure, ◌>>◌}
use nest_nexus.Prisma.{Prisma, PrismaLaws, OrderBy, list_prisma, by_lists}
use nest_nexus.Enums.{
  document_read, document_write, document_delete, owner, editor, Permission, Relation,
}
use nest_nexus.Schema.{Document, App}
use nest_nexus.Env.{JwtPayload, Env}
use nest_nexus.Cache.{CacheManager}
use nest_nexus.Crypto.{Cipher}
use nest_nexus.Guards.{subject_of, permissions_guard, relation_guard, policy_guard}
use nest_nexus.Guards.Passed.{
  IsEntitled, IsVisible, permissions_guard-ok, relation_guard-ok, policy_guard-ok,
}
use nest_nexus.Authorization.Policies.{AuthSubject}
use nest_nexus.Authorization.Decision.{is_super_admin, has_permission}
use nest_nexus.Auth.JwtStrategy.{authenticate}
use nest_nexus.Auth.TwoFactor.{Totp}
use nest_nexus.Auth.Webauthn.{Ceremony}
use nest_nexus.Http.{on_app-ok, Request, Drawn, Body, Exchange}
use nest_nexus.Controllers.Documents
use nest_nexus.Controllers.Documents.{
  post_document, get_documents, get_document, get_preview, delete_document, patch_document,
  post_share, delete_share,
}
use nest_nexus.Server.{documents, decorators, documents_guard, class_guards, serve}
use nest_nexus.Server.Pending.{IsBearer, authenticate-app, serve-guarded}

pub documents_protected :
    (route : Documents.Route) → (decorators (documents route)).is_public ≡ false
unfolding decorators Documents.decorators
documents_protected (get_document id) = refl
documents_protected _ = refl

-- Who may call a route of the documents: the scope, and beside it the relation or the policy.
abbrev pub MayUse : App → JwtPayload → Documents.Route → Type 0
MayUse s user (post_document input) = has_permission (some (subject_of user)) document_write ≡ true
MayUse s user (get_documents query) = has_permission (some (subject_of user)) document_read ≡ true
MayUse s user (get_document id) = has_permission (some (subject_of user)) document_read ≡ true
MayUse s user (get_preview id) =
    (has_permission (some (subject_of user)) document_read ≡ true)
    × ((is_super_admin (some (subject_of user)) ≡ true)
        ⊎ ((d : Document) × (find (λ d. d.id == id) s.documents ≡ some d)
            × IsVisible (subject_of user) d))
MayUse s user (patch_document id input) =
    (has_permission (some (subject_of user)) document_write ≡ true)
    × IsEntitled s (subject_of user) editor id
MayUse s user (delete_document id) =
    (has_permission (some (subject_of user)) document_delete ≡ true)
    × IsEntitled s (subject_of user) owner id
MayUse s user (post_share id dto) =
    (has_permission (some (subject_of user)) document_write ≡ true)
    × IsEntitled s (subject_of user) owner id
MayUse s user (delete_share id dto) =
    (has_permission (some (subject_of user)) document_write ≡ true)
    × IsEntitled s (subject_of user) owner id

-- Each guard of the class with what comes behind it.
module _ {A : Type 0} (user : AuthSubject) (rest : Exec App A) (s t : App) (a : A) where
  scoped :
      (p : Permission)
      → (permissions_guard (p ∷ []) (some user) >> rest) s ≡ (ok a, t)
      → (has_permission (some user) p ≡ true) × (rest s ≡ (ok a, t))
  scoped p h =
      let (b, u, passed, ran) = bind-ok (permissions_guard (p ∷ []) (some user)) (λ _. rest) s h in
      let (held, same) = permissions_guard-ok (p ∷ []) (some user) s u b passed in
      (ground arith, rw same at ran)

  related :
      (required : Relation) (id : String)
      → (relation_guard (some (required, "document")) user (some id) >> rest) s ≡ (ok a, t)
      → IsEntitled s user required id × (rest s ≡ (ok a, t))
  related required id h =
      let (b, u, passed, ran) =
        bind-ok (relation_guard (some (required, "document")) user (some id)) (λ _. rest) s h in
      let (held, same) = relation_guard-ok required user id s u b passed in (held, rw same at ran)

-- The guards of the class, one after the other.
abbrev guards_of : JwtPayload → Documents.Route → Exec App (Unit {0})
guards_of user route =
    permissions_guard (Documents.decorators route).permissions (some (subject_of user))
    >> (relation_guard (Documents.decorators route).relation (subject_of user)
          (Documents.id_param route)
        >> (policy_guard (Documents.decorators route).policy (subject_of user)
              (Documents.id_param route)
            >> pure tt))

module _ (user : JwtPayload) (s t : App) where
  previewed :
      (id : String)
      → (policy_guard (some "document.read") (subject_of user) (some id) >> pure tt) s ≡ (ok tt, t)
      → (is_super_admin (some (subject_of user)) ≡ true)
        ⊎ ((d : Document) × (find (λ d. d.id == id) s.documents ≡ some d)
            × IsVisible (subject_of user) d)
  previewed id h =
      let (b, u, passed, _) =
        bind-ok (policy_guard (some "document.read") (subject_of user) (some id)) (λ _. pure tt) s
          h in
      (policy_guard-ok (subject_of user) id s u b passed).0

  passes-MayUse :
      (route : Documents.Route) → guards_of user route s ≡ (ok tt, t) → MayUse s user route
  unfolding Documents.decorators relation_guard
  passes-MayUse (post_document input) h = (scoped (subject_of user) _ s t tt document_write h).0
  passes-MayUse (get_documents query) h = (scoped (subject_of user) _ s t tt document_read h).0
  passes-MayUse (get_document id) h = (scoped (subject_of user) _ s t tt document_read h).0
  passes-MayUse (get_preview id) h =
      let (held, behind) = scoped (subject_of user) _ s t tt document_read h in
      (held, previewed id behind)
  passes-MayUse (patch_document id input) h =
      let (held, behind) = scoped (subject_of user) _ s t tt document_write h in
      (held, (related (subject_of user) _ s t tt editor id behind).0)
  passes-MayUse (delete_document id) h =
      let (held, behind) = scoped (subject_of user) _ s t tt document_delete h in
      (held, (related (subject_of user) _ s t tt owner id behind).0)
  passes-MayUse (post_share id dto) h =
      let (held, behind) = scoped (subject_of user) _ s t tt document_write h in
      (held, (related (subject_of user) _ s t tt owner id behind).0)
  passes-MayUse (delete_share id dto) h =
      let (held, behind) = scoped (subject_of user) _ s t tt document_write h in
      (held, (related (subject_of user) _ s t tt owner id behind).0)

module _ ⦃env : Env⦄ ⦃cache : CacheManager⦄ ⦃cipher : Cipher⦄ ⦃totp : Totp⦄ ⦃ceremony : Ceremony⦄
    ⦃order : OrderBy⦄ where
  documents_checked :
      (route : Documents.Route) (req : Request) (drawn : Drawn cipher.Byte) (now : ℕ)
      (x y : Exchange) (body : Body)
      → serve (documents route) req drawn now x ≡ (ok body, y)
      → (user : JwtPayload) × IsBearer req.bearer now x.server user × MayUse x.server.app user route
  unfolding class_guards documents_guard
  documents_checked route req drawn now x y body h =
      let (user, bearer, t, guarded, _, ran) =
        serve-guarded (documents route) req drawn now x y body (documents_protected route) h in
      let (u, passed, _) =
        on_app-ok (guards_of user route)
          (record x { server = (authenticate req.bearer now x.server).1 }) t tt guarded in
      (
        user,
        bearer,
        rw (← authenticate-app req.bearer now x.server)
            (passes-MayUse user (authenticate req.bearer now x.server).1.app u route passed),
      )

module _ {prisma : Prisma} (laws : PrismaLaws prisma) ⦃env : Env⦄ ⦃cache : CacheManager⦄
    ⦃cipher : Cipher⦄ ⦃totp : Totp⦄ ⦃ceremony : Ceremony⦄ ⦃order : OrderBy⦄ where
  -- When a route of the documents answers, its caller is the user of a genuine bearer token who has the
  -- scope of the route. A change of a document answers a super admin, or who stands to the document
  -- as an editor or owner; its removal, and each change of its shares, a super admin or who is related
  -- to it as owner; a preview a super admin, or whom the attributes of the stored document let read.
  pub serve-MayUse :
      (route : Documents.Route) (req : Request) (drawn : Drawn cipher.Byte) (now : ℕ)
      (x y : Exchange) (body : Body)
      → serve ⦃prisma = prisma⦄ (documents route) req drawn now x ≡ (ok body, y)
      → (user : JwtPayload) × IsBearer ⦃prisma = prisma⦄ req.bearer now x.server user
        × MayUse x.server.app user route
  serve-MayUse = rw (by_lists laws) documents_checked
