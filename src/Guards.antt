-- ===== src/Guards.antt =====
-- src/common/guards: what a route asks of a request before its handler runs. A guard reads the
-- metadata that the decorators of the route left, and the user that the token named.
pub mod OauthCsrf
pub mod Passed
mod Tests
use Prim.Native.Char.{code}
use Prim.Native.String
use nest_nexus.Prelude.{
  ℕ, String, Bool, true, false, not, ◌&&◌, Option, none, some, List, ◌==◌, string_eq, nat_eq,
  if◌then◌else◌, any, all, includes, is_nil, truthy, or_else,
}
use nest_nexus.Exec.{
  unauthorized, forbidden, not_found, internal_server_error, Result, Exec, pure, throw, unless,
  require, catch, ◌>>=◌, ◌>>◌,
}
use nest_nexus.Prisma.{Prisma}
use nest_nexus.Enums.{Permission, Relation}
use nest_nexus.Schema.{Document, App}
use nest_nexus.Store.{documents, find_unique}
use nest_nexus.Env.{JwtPayload, Env}
use nest_nexus.Auth.ApiKeys.{ValidatedApiKey, validate_key}
use nest_nexus.Authorization.Policies.{AuthSubject, evaluate_policy}
use nest_nexus.Authorization.Relations.{check}
use nest_nexus.Authorization.Decision.{is_super_admin, has_permission, as_resource, document_type}

abbrev pub subject_of : JwtPayload → AuthSubject
subject_of p = record { sub = p.sub; roles = p.roles }

-- jwt-auth.guard.ts: a public route asks for nothing. Any other asks passport for the user of the
-- token; one whose second factor is pending passes where the route allows it.
abbrev pub reject_pending : {S : Type 0} → Bool → JwtPayload → Exec S JwtPayload
reject_pending allow_pending user =
    if or_else user.scope "" == "two_factor_pending" && not allow_pending
    then throw (unauthorized "Two-factor authentication required to complete login.")
    else pure user

unfoldable pub jwt_auth_guard :
    {S : Type 0} → Bool → Bool → Exec S JwtPayload → Exec S (Option JwtPayload)
jwt_auth_guard is_public allow_pending authenticate =
    if is_public
    then pure none
    else (do user ← authenticate; passed ← reject_pending allow_pending user; pure (some passed))

-- roles.guard.ts
unfoldable pub roles_guard : List String → Option AuthSubject → Bool
roles_guard required none = is_nil required
roles_guard required (some user) =
    if is_nil required then true else any (includes user.roles) required

-- permissions.guard.ts
unfoldable pub permissions_guard : List Permission → Option AuthSubject → Exec App Bool
permissions_guard required user =
    if is_nil required
    then pure true
    else if all (has_permission user) required
    then pure true
    else throw (forbidden "Insufficient permissions.")

-- `RelationMeta` of src/common/decorators/require-relation.decorator.ts
abbrev pub RelationMeta : Type 0
RelationMeta = Relation × String

-- `name.split('.')[0]`: the resource type of a policy name.
unfoldable pub resource_type : String → String
resource_type String.[] = String.[]
resource_type (String.◌∷◌ c s) =
    let rest = resource_type s in if code c == b'.' then String.[] else String.◌∷◌ c rest

abbrev pub unsupported_resource : String → String
unsupported_resource name = String.◌++◌ "PolicyGuard does not support resource type '" (
    String.◌++◌ (resource_type name) (
      String.◌++◌ "' (policy: '"
        (String.◌++◌ name "'). Add a loader for this resource type before using @Policy here.")))

module _ ⦃prisma : Prisma⦄ where
  -- relation.guard.ts
  abbrev require_relation : AuthSubject → Relation → String → Option String → Exec App Bool
  require_relation user required resource id =
      if truthy id
      then (do
        held ← check user.sub required resource (or_else id "")
        unless held (forbidden "Relationship requirement not met.")
        pure true)
      else throw (forbidden "Relation guard requires an :id route param.")

  unfoldable pub relation_guard : Option RelationMeta → AuthSubject → Option String → Exec App Bool
  relation_guard none user id = pure true
  relation_guard (some (required, resource)) user id =
      if is_super_admin (some user) then pure true else require_relation user required resource id

  -- policy.guard.ts, for the policies of the document resource.
  abbrev passes_policy : String → AuthSubject → Option Document → Bool
  passes_policy name user none = false
  passes_policy name user (some document) =
      evaluate_policy name (record { user = user; resource = (as_resource document).attrs })

  abbrev require_policy : String → AuthSubject → Option String → Exec App Bool
  require_policy name user id =
      if truthy id
      then (do
        document ← find_unique documents (λ d. d.id == or_else id "")
        unless (passes_policy name user document) (not_found "Document not found.")
        pure true)
      else throw (forbidden "Policy guard requires an :id route param.")

  unfoldable pub policy_guard : Option String → AuthSubject → Option String → Exec App Bool
  policy_guard none user id = pure true
  policy_guard (some name) user id =
      if not (resource_type name == document_type)
      then throw (internal_server_error (unsupported_resource name))
      else if is_super_admin (some user)
      then pure true
      else require_policy name user id

-- src/common/guards/api-key.guard.ts: the header names a key, which is validated.
unfoldable pub api_key_guard :
    ⦃prisma : Prisma⦄ → ⦃env : Env⦄ → Option String → ℕ → Exec App ValidatedApiKey
api_key_guard ⦃prisma⦄ ⦃env⦄ raw_key now =
    require (if truthy raw_key then raw_key else none) (unauthorized "Missing X-API-Key header.")
    >>= λ key. validate_key key now

-- The middleware for routes outside of Nest: it passes the request on, or answers 401.
pub data Passage : Type 0 where
  next : Passage
  refused : String → Passage

unfoldable pub api_key_express_middleware :
    ⦃prisma : Prisma⦄ → ⦃env : Env⦄ → Option String → ℕ → Exec App Passage
api_key_express_middleware ⦃prisma⦄ ⦃env⦄ none now = pure (refused "Missing X-API-Key header.")
api_key_express_middleware ⦃prisma⦄ ⦃env⦄ (some raw_key) now =
    if not (truthy (some raw_key))
    then pure (refused "Missing X-API-Key header.")
    else catch (validate_key raw_key now >> pure next)
        (λ e. pure (refused "Invalid or revoked API key."))
