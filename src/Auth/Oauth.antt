-- ===== src/Auth/Oauth.antt =====
-- `oauthLogin` of src/modules/auth/auth.service.ts: an existing link, the account with the same
-- e-mail, or a new account. A nested write of Prisma is one transaction.
pub mod Links
pub mod Linked
mod Tests
use Prim.Native.String
use nest_nexus.Prelude.{
  ℕ, String, Bool, false, ◌&&◌, Option, none, some, ◌==◌, string_eq, if◌then◌else◌, or_else, truthy,
}
use nest_nexus.Exec.{
  Exception, prisma_known, conflict, forbidden, Exec, pure, throw, catch, unless, ◌>>=◌, ◌>>◌,
}
use nest_nexus.Prisma.{Prisma}
use nest_nexus.Schema.{User, OauthProvider, App, user_created}
use nest_nexus.Store.{users, oauth_providers, find_unique, create, update, upsert, emit}
use nest_nexus.Env.{Env}
use nest_nexus.Auth.Token.{FreshToken}
use nest_nexus.Auth.Service.{OauthProfile, Session, new_user, respond}

-- The ids that the database makes for a new user and a new link.
pub record FreshAccount : Type 0 where
  pub user_id : String
  pub link_id : String

abbrev pub is_link : OauthProfile → OauthProvider → Bool
is_link profile link = link.provider == profile.provider && link.provider_id == profile.provider_id

abbrev pub new_link : OauthProfile → String → String → OauthProvider
new_link profile id user_id = record {
  id = id;
  user_id = user_id;
  provider = profile.provider;
  provider_id = profile.provider_id;
  provider_email = profile.email;
}

-- The handlers of the two `catch` blocks.
abbrev pub no_account : Exception → Exec App (Option User)
no_account (prisma_known code) = if code == "P2025" then pure none else throw (prisma_known code)
no_account e = throw e

abbrev pub taken_email : {A : Type 0} → Exception → Exec App A
taken_email (prisma_known code) =
    if code == "P2002"
    then throw (
        conflict
          "An account with this email already exists. Please log in and link your OAuth provider.")
    else throw (prisma_known code)
taken_email e = throw e

module _ ⦃prisma : Prisma⦄ ⦃env : Env⦄ where
  -- The account with the e-mail of the profile is linked, if there is one.
  abbrev pub link_existing : OauthProfile → FreshAccount → ℕ → Exec App (Option User)
  link_existing profile fresh now =
      if truthy profile.email
      then catch
          (prisma.transaction (do
            user ←
                update users (λ u. u.email == env.to_lower_case (or_else profile.email ""))
                  (λ u. record u { updated_at = now })
            upsert oauth_providers (is_link profile) (new_link profile fresh.link_id user.id)
                (λ l. l)
            pure (some user)))
          no_account
      else pure none

  abbrev pub known_user :
      OauthProfile → FreshAccount → ℕ → Option OauthProvider → Exec App (Option User)
  known_user profile fresh now (some link) = find_unique users (λ u. u.id == link.user_id)
  known_user profile fresh now none = link_existing profile fresh now

  abbrev pub account_email : OauthProfile → String
  account_email profile = env.to_lower_case (
      or_else profile.email
        (String.◌++◌ profile.provider_id (String.◌++◌ "@" (String.◌++◌ profile.provider ".oauth"))))

  abbrev pub oauth_user : OauthProfile → FreshAccount → ℕ → User
  oauth_user profile fresh now =
      record (new_user fresh.user_id (account_email profile) profile.display_name now) {
        has_password = false;
      }

  abbrev pub user_or_new : OauthProfile → FreshAccount → ℕ → Option User → Exec App User
  user_or_new profile fresh now (some user) = pure user
  user_or_new profile fresh now none = do
    catch
        (prisma.transaction (
          create users (oauth_user profile fresh now)
          >> create oauth_providers (new_link profile fresh.link_id fresh.user_id)))
        taken_email
    emit (user_created fresh.user_id)
    pure (oauth_user profile fresh now)

  unfoldable pub oauth_login :
      OauthProfile → Option String → FreshAccount → FreshToken → ℕ → Exec App Session
  oauth_login profile user_agent account fresh now = do
    existing ← find_unique oauth_providers (is_link profile)
    found ← known_user profile account now existing
    user ← user_or_new profile account now found
    unless user.is_active (forbidden "Your account has been deactivated. Please contact support.")
    respond user user_agent fresh now
