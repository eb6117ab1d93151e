-- ===== src/Auth/Oauth/Tests.antt =====
-- Ada signs in by a provider that knows her e-mail.
use nest_nexus.Prelude.{◌≡◌, refl, true, some, none}
use nest_nexus.Exec.{ok}
use nest_nexus.Prisma.{list_prisma, list_prisma_laws}
use nest_nexus.Schema.{User, App}
use nest_nexus.Samples.{sample, sample_env, fresh_token}
use nest_nexus.Auth.Service.{OauthProfile, Session, build_auth_response}
use nest_nexus.Auth.Token.{generate_refresh_token}
use nest_nexus.Auth.Oauth.{FreshAccount, oauth_login}
use nest_nexus.Auth.Oauth.Links.{IsLinked}
use nest_nexus.Auth.Oauth.Linked.{IsOf, token_for, oauth_login-IsOf}

abbrev ada_abroad : OauthProfile
ada_abroad = record {
  provider = "google";
  provider_id = "g1";
  email = some "ada";
  display_name = "Ada";
  avatar = none;
}

abbrev account : FreshAccount
account = record { user_id = "u9"; link_id = "l9" }

abbrev arrived : App
arrived = (oauth_login ada_abroad none account fresh_token 5 sample).1

arrives :
    (session : Session) × (oauth_login ada_abroad none account fresh_token 5 sample
      ≡ (ok session, arrived))
unfolding oauth_login build_auth_response generate_refresh_token
arrives = (_, refl)

oauth_login-IsOf_example :
    (user : User) × IsOf ada_abroad account 5 user sample
    × (user.is_active ≡ true)
    × (arrives.0.access_token ≡ token_for 5 user)
    × IsLinked ada_abroad user arrived
oauth_login-IsOf_example =
    oauth_login-IsOf list_prisma_laws ada_abroad none account fresh_token 5 sample arrived arrives.0
      arrives.1
