-- ===== src/Server/Tests.antt =====
-- Requests to a sample server, whose users' tokens are their names.
use nest_nexus.Prelude.{
  ℕ, String, ◌≡◌, ◌⊎◌, refl, true, false, none, some, [], ◌∷◌, string_eq, or_else, find, includes,
}
use nest_nexus.Exec.{Exception, ok, err, unauthorized}
use nest_nexus.Prisma.{list_prisma, list_prisma_laws}
use nest_nexus.Enums.{user_role, moderator, document_delete, owner, super_admin}
use nest_nexus.Schema.{User}
use nest_nexus.Cache.{map_cache}
use nest_nexus.Env.{JwtPayload}
use nest_nexus.Samples.{ada, root, sample, sample_env, open_cipher, no_totp, stored_order}
use nest_nexus.Guards.{subject_of}
use nest_nexus.Guards.Passed.{IsEntitled}
use nest_nexus.Authorization.Decision.{has_permission}
use nest_nexus.Authorization.Rbac.{role_permissions}
use nest_nexus.Authorization.Relations.{check}
use nest_nexus.Auth.JwtStrategy.{JwtState, validate, with_db_roles, authenticate, lookup_entry}
use nest_nexus.Http.{Request, Drawn, Exchange, Body, empty}
use nest_nexus.Http
use nest_nexus.Users.{set_roles, guard_demotion, deactivate}
use nest_nexus.Users.Changes.{named}
use nest_nexus.Controllers.Auth
use nest_nexus.Controllers.Documents
use nest_nexus.Controllers.Users
use nest_nexus.Server
use nest_nexus.Server.Fixtures.{no_ceremony, drawn, from, server}
use nest_nexus.Guards
use nest_nexus.Document
use nest_nexus.Validation
use nest_nexus.Controllers.Auth.{get_me, post_logout, post_refresh}
use nest_nexus.Controllers.TwoFactor.{post_verify}
use nest_nexus.Controllers.Users.{patch_roles, delete_user}
use nest_nexus.Controllers.Documents.{delete_document}
use nest_nexus.Server.{Call, auth, two_factor, users, documents, decorators, serve, opened, request}
use nest_nexus.Server.Pending.{IsBearer, serve-IsBearer}
use nest_nexus.Server.Roles.{HasRoles, serve-MayCall}
use nest_nexus.Server.Privileges.{serve-MayUse}
use nest_nexus.Server.Cookies.{AllHardened, serve-AllHardened}
use nest_nexus.Server.AtOnce.{patch_roles-validate, delete_user-validate}

abbrev me : Call
me = auth get_me

me_protected : (decorators me).is_public ≡ false
unfolding decorators Auth.decorators
me_protected = refl

serve-IsBearer_example :
    ((user : JwtPayload) × IsBearer (some "ada") 40 server user
      × (or_else user.scope "" ≡ "two_factor_pending"
          → (given : String) × (me ≡ two_factor (post_verify given))))
    ⊎ ((e : Exception) × ((serve me (from "ada") drawn 40 (opened server)).0 ≡ err e)
        × ((serve me (from "ada") drawn 40 (opened server)).1.server.app ≡ sample)
        × ((serve me (from "ada") drawn 40 (opened server)).1.cookies ≡ []))
serve-IsBearer_example = serve-IsBearer me (from "ada") drawn 40 (opened server) me_protected

-- The owner of a document removes it.
abbrev delete_own : Call
delete_own = documents (delete_document "d1")

delete_own_done :
    (y : Exchange) × (serve delete_own (from "ada") drawn 40 (opened server) ≡ (ok empty, y))
unfolding serve Server.admitted decorators Documents.decorators authenticate validate lookup_entry
    Server.class_guards Guards.permissions_guard has_permission role_permissions
    Guards.relation_guard check Guards.policy_guard Server.run Documents.run Document.remove
    Server.is_valid Validation.documents_valid
delete_own_done = (_, refl)

serve-MayUse_example :
    (user : JwtPayload) × IsBearer (some "ada") 40 server user
    × ((has_permission (some (subject_of user)) document_delete ≡ true)
        × IsEntitled sample (subject_of user) owner "d1")
serve-MayUse_example =
    serve-MayUse list_prisma_laws (delete_document "d1") (from "ada") drawn 40 (opened server)
      delete_own_done.0 empty delete_own_done.1

-- A super admin makes a user a moderator.
abbrev promote : Call
promote = users (patch_roles "ada" (moderator ∷ []))

promote_done :
    (body : Body) × (y : Exchange) × (serve promote (from "root") drawn 40 (opened server)
      ≡ (ok body, y))
unfolding serve Server.admitted decorators Users.decorators authenticate validate lookup_entry
    Server.class_guards Guards.roles_guard Server.run Users.run set_roles guard_demotion
    Server.is_valid Validation.users_valid
promote_done = (_, _, refl)

serve-MayCall_example :
    (user : JwtPayload) × IsBearer (some "root") 40 server user
    × HasRoles 40 server user
    × (includes user.roles super_admin ≡ true)
serve-MayCall_example =
    serve-MayCall (patch_roles "ada" (moderator ∷ [])) (from "root") drawn 40 (opened server)
      promote_done.1 promote_done.0 promote_done.2

promoted :
    (body : Body) × (t : JwtState) × (request promote (from "root") drawn 40 server ≡ (ok body, t))
unfolding request serve Server.admitted decorators Users.decorators authenticate validate
    lookup_entry Server.class_guards Guards.roles_guard Server.run Users.run set_roles
    guard_demotion Server.is_valid Validation.users_valid
promoted = (_, _, refl)

patch_roles-validate_example :
    (u : User) × (find (named "ada") sample.users ≡ some u)
    × ((payload : JwtPayload) (later_on : ℕ)
        → payload.sub ≡ "ada"
        → (validate payload later_on promoted.1).0
          ≡ with_db_roles payload u.is_active (moderator ∷ []))
patch_roles-validate_example =
    patch_roles-validate list_prisma_laws "ada" (moderator ∷ []) (from "root") drawn 40 server
      promoted.1 promoted.0 promoted.2

expelled :
    (body : Body) × (t : JwtState) × (request
        (users (delete_user "ada"))
        (from "root")
        drawn
        40
        server
      ≡ (ok body, t))
unfolding request serve Server.admitted decorators Users.decorators authenticate validate
    lookup_entry Server.class_guards Guards.roles_guard Server.run Users.run deactivate
    Server.is_valid Validation.users_valid
expelled = (_, _, refl)

abbrev ada_payload : JwtPayload
ada_payload = record { sub = "ada"; email = "ada"; roles = user_role ∷ []; scope = none }

delete_user-validate_example :
    (validate ada_payload 50 expelled.1).0
    ≡ err (unauthorized "User account is inactive or not found.")
delete_user-validate_example =
    delete_user-validate list_prisma_laws "ada" (from "root") drawn 40 server expelled.1 expelled.0
      expelled.2 ada_payload 50 refl

serve-AllHardened_example :
    AllHardened (serve (auth post_refresh) (from "ada") drawn 40 (opened server)).1
serve-AllHardened_example = serve-AllHardened (auth post_refresh) (from "ada") drawn 40 server

-- A user with a second factor follows a magic link.
abbrev ada_linked : User
ada_linked = record ada {
  is_two_factor_enabled = true;
  two_factor_secret = some "secret";
  magic_link_token_hash = some "link";
  magic_link_expires_at = some 100;
}

abbrev linked_server : JwtState
linked_server = record server { app = record sample { users = ada_linked ∷ root ∷ [] } }
