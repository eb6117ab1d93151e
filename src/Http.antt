-- ===== src/Http.antt =====
-- Requests and replies, as the controllers of src/modules see them: what a handler reads of a request,
-- the cookies that it sets, the bodies that it answers with, and the decorators of a route. The parsing
-- of a request and the printing of a reply are Nest's.
use nest_nexus.Prelude.{ℕ, ◌≡◌, sym, ap, String, Bool, false, Option, none, List, [], ◌∷◌, ◌++◌}
use nest_nexus.Exec.{Result, ok, Exec, other, require}
use nest_nexus.Prisma.{Prisma}
use nest_nexus.Enums.{Permission}
use nest_nexus.Schema.{UserOutput, App}
use nest_nexus.Env.{JwtPayload, Env}
use nest_nexus.Guards.{RelationMeta}
use nest_nexus.Auth.JwtStrategy.{JwtState}
use nest_nexus.Auth.Token.{FreshToken, CookieOptions, get_refresh_token_cookie_options}
use nest_nexus.Auth.Token.Devices.{DeviceSession}
use nest_nexus.Auth.Service.{Session}
use nest_nexus.Auth.TwoFactor.{SetupData}
use nest_nexus.Auth.Webauthn.{CreationOptions, RequestOptions}
use nest_nexus.Document.{DocumentOutput}

-- The headers and cookies that the code reads. The bearer token and the query of a callback are those
-- that passport and Express find.
pub record Request : Type 0 where
  pub bearer : Option String
  pub user_agent : Option String
  pub ip : Option String
  pub refresh_cookie : Option String
  pub state_cookie : Option String
  pub state_query : Option String

-- The values that one request draws at random, with the ids that the database makes.
pub record Drawn (Byte : Type 0) : Type 0 where
  pub token : FreshToken
  pub id : String
  pub second_id : String
  pub text : String
  pub iv : List Byte
  pub hex : ℕ → String

pub data CookieChange : Type 0 where
  set_cookie : String → String → CookieOptions → CookieChange
  clear_cookie : String → String → CookieChange

-- src/modules/auth/dto/auth.output.ts
pub record AuthOutput : Type 0 where
  pub access_token : String
  pub user : Option UserOutput
  pub is_two_factor_pending : Bool
  pub access_token_expires_at : ℕ

-- The part of a session that is answered; the refresh token travels in the cookie alone.
abbrev pub auth_output : Session → AuthOutput
auth_output session = record {
  access_token = session.access_token;
  user = session.user;
  is_two_factor_pending = session.is_two_factor_pending;
  access_token_expires_at = session.access_token_expires_at;
}

pub data Body : Type 0 where
  empty : Body
  auth : AuthOutput → Body
  payload : JwtPayload → Body
  sessions : List DeviceSession → Body
  setup_data : SetupData → Body
  backup_codes : List String → Body
  creation_options : CreationOptions → Body
  request_options : RequestOptions → Body
  message : String → Body
  api_key : String → Body
  redirect : String → Body
  user : UserOutput → Body
  users : List UserOutput → Body
  document : DocumentOutput → Body
  documents : List DocumentOutput → Body

-- One request under way: the server's state, and the cookies that the reply has so far, which it
-- keeps when an exception becomes the answer.
pub record Exchange : Type 0 where
  pub server : JwtState
  pub cookies : List CookieChange

abbrev pub on_server : {A : Type 0} → Exec JwtState A → Exec Exchange A
on_server m x = let (r, t) = m x.server in (r, record x { server = t })

abbrev pub on_app : {A : Type 0} → Exec App A → Exec Exchange A
on_app m x = let (r, t) = m x.server.app in (r, record x { server = record x.server { app = t } })

abbrev pub change_cookie : CookieChange → Exec Exchange (Unit {0})
change_cookie c x = (ok tt, record x { cookies = x.cookies ++ c ∷ [] })

-- `res.cookie('refresh_token', …)`
abbrev pub set_refresh_cookie :
    ⦃prisma : Prisma⦄ → ⦃env : Env⦄ → String → ℕ → Exec Exchange (Unit {0})
set_refresh_cookie ⦃prisma⦄ ⦃env⦄ refresh_token now =
    change_cookie (set_cookie "refresh_token" refresh_token (get_refresh_token_cookie_options now))

-- src/common/decorators/current-user.decorator.ts: the handlers read fields of the user, which throws
-- when there is none.
abbrev pub current_user : Option JwtPayload → Exec Exchange JwtPayload
current_user found = require found (other "Cannot read properties of undefined (reading 'sub')")

-- The metadata that the decorators of src/common/decorators leave on a route.
pub record Decorators : Type 0 where
  pub is_public : Bool
  pub allow_pending : Bool
  pub roles : List String
  pub permissions : List Permission
  pub relation : Option RelationMeta
  pub policy : Option String

abbrev pub undecorated : Decorators
undecorated = record {
  is_public = false;
  allow_pending = false;
  roles = [];
  permissions = [];
  relation = none;
  policy = none;
}

-- What an action of the services did, when its handler went on.
pub on_app-ok :
    {A : Type 0} (m : Exec App A) (x y : Exchange) (a : A)
    → on_app m x ≡ (ok a, y)
    → (t : App) × (m x.server.app ≡ (ok a, t))
      × (y ≡ record x { server = record x.server { app = t } })
on_app-ok {A} m x y a h =
    let t = (m x.server.app).1 in
    (t, ap (λ (o : Result A × Exchange). (o.0, t)) h, sym (ap (λ (o : Result A × Exchange). o.1) h))
