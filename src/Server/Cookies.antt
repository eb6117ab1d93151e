-- ===== src/Server/Cookies.antt =====
-- The cookies of the replies, over all routes.
use nest_nexus.Prelude.{
  ℕ, String, ◌≡◌, refl, true, Option, none, some, List, [], ◌∷◌, ◌++◌, ◌==◌, string_eq, All,
}
use nest_nexus.Exec.{Exec}
use nest_nexus.Exec.Keeps.{Keeps, keeps_rules, Keeps-pure, Keeps-bind, Keeps-then}
use nest_nexus.Prisma.{Prisma, OrderBy}
use nest_nexus.Schema.{App}
use nest_nexus.Env.{JwtPayload, Env}
use nest_nexus.Cache.{CacheManager}
use nest_nexus.Crypto.{Cipher}
use nest_nexus.Auth.JwtStrategy.{JwtState}
use nest_nexus.Auth.Token.{get_refresh_token_cookie_options}
use nest_nexus.Auth.TwoFactor.{Totp}
use nest_nexus.Auth.Webauthn.{Ceremony}
use nest_nexus.Http.{
  Request, Drawn, CookieChange, set_cookie, clear_cookie, Exchange, on_server, on_app,
  change_cookie, set_refresh_cookie,
}
use nest_nexus.Controllers.Auth
use nest_nexus.Controllers.TwoFactor
use nest_nexus.Controllers.Webauthn
use nest_nexus.Controllers.MagicLink
use nest_nexus.Controllers.Oauth
use nest_nexus.Controllers.ApiKeys
use nest_nexus.Controllers.Users
use nest_nexus.Controllers.Documents
use nest_nexus.Server.{
  Call, auth, two_factor, webauthn, magic_link, oauth, api_keys, users, documents, class_guards,
  users_guard, documents_guard, validated, run, admitted, serve, opened,
}

All-append :
    (P : CookieChange → Type 0) (xs : List CookieChange) (c : CookieChange)
    → All P xs
    → P c
    → All P (xs ++ c ∷ [])
All-append P [] c h p = (p, tt)
All-append P (x ∷ xs) c (hx, hs) p = (hx, All-append P xs c hs p)

module _ ⦃prisma : Prisma⦄ ⦃env : Env⦄ where
  -- No script reads a cookie; in production it travels over TLS only; and the refresh token goes to the
  -- routes under /api/v1/auth of the same site alone.
  abbrev pub IsHardened : CookieChange → Type 0
  IsHardened (set_cookie name value options) =
      (options.http_only ≡ true)
      × (options.secure ≡ (env.config.node_env == "production"))
      × (name ≡ "refresh_token" → (options.same_site ≡ "strict") × (options.path ≡ "/api/v1/auth"))
  IsHardened (clear_cookie name path) = Unit

  abbrev pub AllHardened : Exchange → Type 0
  AllHardened x = All IsHardened x.cookies

  Keeps-on_app : {A : Type 0} (m : Exec App A) → Keeps AllHardened (on_app m)
  Keeps-on_app m = record { after = λ x h. h }

  Keeps-on_server : {A : Type 0} (m : Exec JwtState A) → Keeps AllHardened (on_server m)
  Keeps-on_server m = record { after = λ x h. h }

  Keeps-change : (c : CookieChange) → IsHardened c → Keeps AllHardened (change_cookie c)
  Keeps-change c p = record { after = λ x h. All-append IsHardened x.cookies c h p }

  Keeps-refresh : (token : String) (now : ℕ) → Keeps AllHardened (set_refresh_cookie token now)
  unfolding get_refresh_token_cookie_options
  Keeps-refresh token now = Keeps-change _ (refl, refl, λ _. (refl, refl))

  Keeps-clear : (name path : String) → Keeps AllHardened (change_cookie (clear_cookie name path))
  Keeps-clear name path = Keeps-change (clear_cookie name path) tt

  ruleset cookie_rules = (keeps_rules, Keeps-on_app, Keeps-on_server, Keeps-refresh, Keeps-clear)

  module _ ⦃cache : CacheManager⦄ ⦃order : OrderBy⦄ {Byte : Type 0} where
    auth-Keeps :
        (route : Auth.Route) (found : Option JwtPayload) (req : Request) (drawn : Drawn Byte)
        (now : ℕ)
        → Keeps AllHardened (Auth.run route found req drawn now)
    unfolding Auth.run Auth.register Auth.login Auth.refresh
    auth-Keeps Auth.post_logout found req drawn now = search cookie_rules
    auth-Keeps _ found req drawn now = search cookie_rules

  two_factor-Keeps :
      ⦃cipher : Cipher⦄ ⦃totp : Totp⦄ (route : TwoFactor.Route) (found : Option JwtPayload)
      (req : Request) (drawn : Drawn cipher.Byte) (now : ℕ)
      → Keeps AllHardened (TwoFactor.run route found req drawn now)
  unfolding TwoFactor.run TwoFactor.verify
  two_factor-Keeps TwoFactor.post_setup found req drawn now = search cookie_rules
  two_factor-Keeps _ found req drawn now = search cookie_rules depth 9

  webauthn-Keeps :
      ⦃cache : CacheManager⦄ ⦃ceremony : Ceremony⦄ {Byte : Type 0} (route : Webauthn.Route)
      (found : Option JwtPayload) (req : Request) (drawn : Drawn Byte) (now : ℕ)
      → Keeps AllHardened (Webauthn.run route found req drawn now)
  unfolding Webauthn.run Webauthn.login_verify Webauthn.signup_verify
  webauthn-Keeps Webauthn.delete_credential found req drawn now = search cookie_rules
  webauthn-Keeps _ found req drawn now = search cookie_rules

  module _ {Byte : Type 0} where
    magic_link-Keeps :
        (route : MagicLink.Route) (found : Option JwtPayload) (req : Request) (drawn : Drawn Byte)
        (now : ℕ)
        → Keeps AllHardened (MagicLink.run route found req drawn now)
    unfolding MagicLink.run MagicLink.send MagicLink.verify
    magic_link-Keeps (MagicLink.post_send email) found req drawn now = search cookie_rules
    magic_link-Keeps _ found req drawn now = search cookie_rules

    api_keys-Keeps :
        (route : ApiKeys.Route) (found : Option JwtPayload) (drawn : Drawn Byte) (now : ℕ)
        → Keeps AllHardened (ApiKeys.run route found drawn now)
    unfolding ApiKeys.run
    api_keys-Keeps (ApiKeys.delete_key id) found drawn now = search cookie_rules
    api_keys-Keeps _ found drawn now = search cookie_rules

    documents-Keeps :
        ⦃order : OrderBy⦄ (route : Documents.Route) (found : Option JwtPayload) (drawn : Drawn Byte)
        (now : ℕ)
        → Keeps AllHardened (Documents.run route found drawn now)
    unfolding Documents.run
    documents-Keeps (Documents.get_document id) found drawn now = search cookie_rules
    documents-Keeps _ found drawn now = search cookie_rules

    starts :
        (drawn : Drawn Byte) (address : String → String)
        → Keeps AllHardened (Oauth.init_guard address drawn)
    unfolding Oauth.init_guard
    starts drawn address =
        Keeps-then _ _
          (Keeps-change _ (refl, refl, λ (e : "oauth_state" ≡ "refresh_token"). absurd (cc)))
          (Keeps-pure _)

    -- The state of an OAuth flow, whose cookie is one of the site's root.
    oauth-Keeps :
        (route : Oauth.Route) (req : Request) (drawn : Drawn Byte) (now : ℕ)
        → Keeps AllHardened (Oauth.run route req drawn now)
    unfolding Oauth.run Oauth.init_guard Oauth.callback
    oauth-Keeps (Oauth.get_google address) req drawn now = starts drawn address
    oauth-Keeps (Oauth.get_github address) req drawn now = starts drawn address
    oauth-Keeps (Oauth.get_microsoft address) req drawn now = starts drawn address
    oauth-Keeps _ req drawn now = search cookie_rules depth 9

  users-Keeps :
      ⦃cache : CacheManager⦄ (route : Users.Route) (found : Option JwtPayload) (now : ℕ)
      → Keeps AllHardened (Users.run route found now)
  unfolding Users.run
  users-Keeps Users.get_profile found now = search cookie_rules
  users-Keeps _ found now = search cookie_rules

  guards-Keeps :
      (call : Call) (found : Option JwtPayload) → Keeps AllHardened (class_guards call found)
  unfolding class_guards users_guard documents_guard
  guards-Keeps (users route) none = search cookie_rules
  guards-Keeps (users route) (some user) = search cookie_rules
  guards-Keeps (documents route) none = search cookie_rules
  guards-Keeps (documents route) (some user) = search cookie_rules
  guards-Keeps _ found = search cookie_rules

  validated-Keeps : (call : Call) → Keeps AllHardened (validated call)
  validated-Keeps call = search cookie_rules

  admitted-Keeps :
      (call : Call) (req : Request) (now : ℕ) → Keeps AllHardened (admitted call req now)
  unfolding admitted
  admitted-Keeps call req now = Keeps-on_server _

  module _ ⦃cache : CacheManager⦄ ⦃cipher : Cipher⦄ ⦃totp : Totp⦄ ⦃ceremony : Ceremony⦄
      ⦃order : OrderBy⦄ where
    run-Keeps :
        (call : Call) (found : Option JwtPayload) (req : Request) (drawn : Drawn cipher.Byte)
        (now : ℕ)
        → Keeps AllHardened (run call found req drawn now)
    unfolding run
    run-Keeps (auth route) found req drawn now = auth-Keeps route found req drawn now
    run-Keeps (two_factor route) found req drawn now = two_factor-Keeps route found req drawn now
    run-Keeps (webauthn route) found req drawn now = webauthn-Keeps route found req drawn now
    run-Keeps (magic_link route) found req drawn now = magic_link-Keeps route found req drawn now
    run-Keeps (oauth route) found req drawn now = oauth-Keeps route req drawn now
    run-Keeps (api_keys route) found req drawn now = api_keys-Keeps route found drawn now
    run-Keeps (users route) found req drawn now = users-Keeps route found now
    run-Keeps (documents route) found req drawn now = documents-Keeps route found drawn now

    -- Whatever a call answers, each cookie that its reply sets is one that no script reads, that is
    -- secure exactly in production, and, if it holds the refresh token, that goes to the routes under
    -- /api/v1/auth of the same site alone.
    pub serve-AllHardened :
        (call : Call) (req : Request) (drawn : Drawn cipher.Byte) (now : ℕ) (s : JwtState)
        → AllHardened (serve call req drawn now (opened s)).1
    unfolding serve
    serve-AllHardened call req drawn now s =
        (Keeps-bind (admitted call req now) _ (admitted-Keeps call req now) (λ found.
            Keeps-then _ _ (guards-Keeps call found)
              (Keeps-then _ _ (validated-Keeps call) (run-Keeps call found req drawn now)))).after
          (opened s) tt
