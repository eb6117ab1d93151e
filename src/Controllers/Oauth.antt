-- ===== src/Controllers/Oauth.antt =====
-- src/modules/auth/oauth: the controller of the OAuth routes, with the guards of
-- src/common/guards/oauth-csrf.guard.ts and the profiles that the strategies make. What passport gets
-- from a provider is an argument: the profile, or none when it refuses.
use Prim.Native.String
use nest_nexus.Prelude.{
  ℕ, String, Bool, true, Option, none, some, List, ◌∷◌, ◌==◌, string_eq, if◌then◌else◌, or_else,
  is_some,
}
use nest_nexus.Exec.{
  unauthorized, forbidden, Result, ok, err, Exec, pure, lift, require, unless, ◌>>=◌, ◌>>◌,
}
use nest_nexus.Prisma.{Prisma}
use nest_nexus.Env.{Env}
use nest_nexus.Guards.OauthCsrf.{oauth_callback_guard}
use nest_nexus.Auth.Service.{OauthProfile, Session}
use nest_nexus.Auth.Oauth.{oauth_login}
use nest_nexus.Http.{
  Request, Drawn, set_cookie, clear_cookie, Body, redirect, Exchange, on_app, change_cookie,
  set_refresh_cookie, Decorators, undecorated,
}

pub record GoogleProfile : Type 0 where
  pub id : String
  pub display_name : String
  pub emails : Option (List String)
  pub photos : Option (List String)

pub record GithubProfile : Type 0 where
  pub id : String
  pub username : Option String
  pub display_name : Option String
  pub emails : Option (List String)
  pub photos : Option (List String)

pub record MicrosoftProfile : Type 0 where
  pub id : String
  pub display_name : Option String
  pub emails : Option (List String)

-- `values?.[0]?.value`
abbrev first_value : Option (List String) → Option String
first_value (some (x ∷ xs)) = some x
first_value _ = none

abbrev first_of : Option String → Option String → Option String
first_of a b = if is_some a then a else b

unfoldable pub google_validate : GoogleProfile → OauthProfile
google_validate profile = record {
  provider = "google";
  provider_id = profile.id;
  email = first_value profile.emails;
  display_name = profile.display_name;
  avatar = first_value profile.photos;
}

unfoldable pub github_validate : GithubProfile → OauthProfile
github_validate profile = record {
  provider = "github";
  provider_id = profile.id;
  email = first_value profile.emails;
  display_name = or_else (first_of profile.display_name profile.username) "GitHub User";
  avatar = first_value profile.photos;
}

unfoldable pub microsoft_validate : MicrosoftProfile → OauthProfile
microsoft_validate profile = record {
  provider = "microsoft";
  provider_id = profile.id;
  email = first_value profile.emails;
  display_name = or_else profile.display_name "Microsoft User";
  avatar = none;
}

-- The starts of a flow, with the address to which passport sends the browser with a state, and the
-- callbacks.
pub data Route : Type 0 where
  get_google get_github get_microsoft : (String → String) → Route
  get_google_callback : Option GoogleProfile → Route
  get_github_callback : Option GithubProfile → Route
  get_microsoft_callback : Option MicrosoftProfile → Route

unfoldable pub decorators : Route → Decorators
decorators (get_google address) = record undecorated { is_public = true }
decorators (get_github address) = record undecorated { is_public = true }
decorators (get_microsoft address) = record undecorated { is_public = true }
decorators (get_google_callback profile) = record undecorated { is_public = true }
decorators (get_github_callback profile) = record undecorated { is_public = true }
decorators (get_microsoft_callback profile) = record undecorated { is_public = true }

-- The profile with which the strategy of a callback answers.
abbrev pub validated : {A : Type 0} → (A → OauthProfile) → Option A → Option OauthProfile
validated f none = none
validated f (some profile) = some (f profile)

-- What passport's own `canActivate` gives: it throws when the provider refuses.
abbrev pub activated : Option OauthProfile → Result Bool
activated none = err (unauthorized "Unauthorized")
activated (some profile) = ok true

module _ ⦃prisma : Prisma⦄ ⦃env : Env⦄ where
  abbrev answer_callback : Session → ℕ → Exec Exchange Body
  answer_callback session now =
      if session.is_two_factor_pending
      then pure (
          redirect (
            String.◌++◌ env.config.client_origin
              (String.◌++◌ "/oauth/2fa-pending#token=" session.access_token)))
      else set_refresh_cookie session.refresh_token now
        >> pure (redirect (String.◌++◌ env.config.client_origin "/oauth/success"))

module _ ⦃prisma : Prisma⦄ ⦃env : Env⦄ {Byte : Type 0} where
  -- The state that is drawn goes into a cookie and into the address.
  unfoldable pub init_guard : (String → String) → Drawn Byte → Exec Exchange Body
  init_guard address drawn = do
    change_cookie (
        set_cookie "oauth_state" drawn.text (record {
          http_only = true;
          secure = env.config.node_env == "production";
          same_site = "lax";
          path = "/";
          max_age = 600000;
        }))
    pure (redirect (address drawn.text))

  -- The guard of the callback, passport, and `handleOAuthCallback`.
  unfoldable pub callback : Option OauthProfile → Request → Drawn Byte → ℕ → Exec Exchange Body
  callback found req drawn now = do
    change_cookie (clear_cookie "oauth_state" "/")
    passed ← lift (oauth_callback_guard req.state_cookie req.state_query (activated found))
    unless passed (forbidden "Forbidden resource")
    profile ← require found (unauthorized "Unauthorized")
    session ← on_app (
        oauth_login profile req.user_agent
          (record { user_id = drawn.id; link_id = drawn.second_id }) drawn.token now)
    answer_callback session now

  unfoldable pub run : Route → Request → Drawn Byte → ℕ → Exec Exchange Body
  unfolding google_validate github_validate microsoft_validate
  run (get_google address) req drawn now = init_guard address drawn
  run (get_github address) req drawn now = init_guard address drawn
  run (get_microsoft address) req drawn now = init_guard address drawn
  run (get_google_callback profile) req drawn now =
      callback (validated google_validate profile) req drawn now
  run (get_github_callback profile) req drawn now =
      callback (validated github_validate profile) req drawn now
  run (get_microsoft_callback profile) req drawn now =
      callback (validated microsoft_validate profile) req drawn now
