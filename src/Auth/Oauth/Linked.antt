-- ===== src/Auth/Oauth/Linked.antt =====
-- `oauthLogin` of src/modules/auth/auth.service.ts: whose session it answers with.
use nest_nexus.Prelude.{
  ℕ, String, ◌≡◌, ◌⊎◌, sym, ap, ◌∙◌, inl, inr, true, Option, some, ◌==◌, string_eq, eq_iff,
  if◌then◌else◌, any, find, find-some, Bool-cases, Option-cases,
}
use nest_nexus.Exec.{Result, ok, failed, bind-ok, unless-ok, ok_inj, ◌>>=◌, ◌>>◌, unless, forbidden}
use nest_nexus.Prisma.{Prisma, PrismaLaws, list_prisma, by_lists}
use nest_nexus.Schema.{User, OauthProvider, refresh_token_clash, App}
use nest_nexus.Env.{Env}
use nest_nexus.Auth.Token.{
  FreshToken, new_token, generate_refresh_token, generate_access_token,
  generate_pending_two_factor_token,
}
use nest_nexus.Auth.Service.{OauthProfile, Session, no_options, respond, build_auth_response}
use nest_nexus.Auth.Oauth.{
  FreshAccount, is_link, link_existing, known_user, user_or_new, oauth_login,
}
use nest_nexus.Auth.Oauth.Links.{IsLinked, IsNew, IsJoined, made, joined}

module _ ⦃env : Env⦄ (now : ℕ) where
  -- The token that a user with a second factor gets serves for that alone.
  abbrev pub token_for : User → String
  token_for user =
      if user.is_two_factor_enabled
      then generate_pending_two_factor_token user now
      else generate_access_token user now

  responded :
      (user : User) (agent : Option String) (fresh : FreshToken) (s t : App) (session : Session)
      → respond user agent fresh now s ≡ (ok session, t)
      → (t.oauth_providers ≡ s.oauth_providers) × (session.access_token ≡ token_for user)
  unfolding build_auth_response generate_refresh_token
  responded user agent fresh s t session h = elim (Bool-cases user.is_two_factor_enabled) [
    | inl two ↦
        let h' = rw two at h in
        (
          ap (λ (o : Result Session × App). o.1.oauth_providers) (sym h'),
          rw two (
              ap (λ (x : Session). x.access_token)
                (ok_inj (ap (λ (o : Result Session × App). o.0) (sym h')))),
        )
    | inr one ↦
        elim (Bool-cases (
          any (refresh_token_clash (new_token user.id (no_options agent) fresh now))
            s.refresh_tokens)) [
              | inl taken ↦ failed (rw taken at (rw one at h))
              | inr free ↦
                  let h' = rw free at (rw one at h) in
                  (
                    ap (λ (o : Result Session × App). o.1.oauth_providers) (sym h'),
                    rw one (
                        ap (λ (x : Session). x.access_token)
                          (ok_inj (ap (λ (o : Result Session × App). o.0) (sym h')))),
                  )
            ]
  ]

module _ ⦃env : Env⦄ (profile : OauthProfile) (account : FreshAccount) (now : ℕ) where
  -- The account behind the link that was there.
  abbrev IsReturning : User → App → Type 0
  IsReturning user s =
      (link : OauthProvider) × (find (is_link profile) s.oauth_providers ≡ some link)
      × (find (λ u. u.id == link.user_id) s.users ≡ some user)

  -- Where the user of a sign-in comes from.
  abbrev pub IsOf : User → App → Type 0
  IsOf user s =
      IsReturning user s ⊎ (IsJoined profile account now user s ⊎ IsNew profile account now user s)

  pure-ok :
      (u user : User) (s t : App)
      → ◌≡◌ {A = Result User × App} (ok u, s) (ok user, t)
      → (user ≡ u) × (t ≡ s)
  pure-ok u user s t h = (
    ok_inj (ap (λ (o : Result User × App). o.0) (sym h)),
    ap (λ (o : Result User × App). o.1) (sym h),
  )

  chosen :
      (s t : App) (user : User)
      → (known_user profile account now (find (is_link profile) s.oauth_providers) >>= λ found.
            user_or_new profile account now found)
          s
        ≡ (ok user, t)
      → IsOf user s × IsLinked profile user t
  chosen s t user h = elim (Option-cases (find (is_link profile) s.oauth_providers)) [
    | inr (link, linked) ↦ elim (Option-cases (find (λ (u : User). u.id == link.user_id) s.users)) [
      | inl missing ↦
          let (new_one, after) =
            made profile account now s t user (rw missing at (rw linked at h)) in
          (inr (inr new_one), after)
      | inr (u, owner) ↦
          let h' = rw owner at (rw linked at h) in
          let same : user ≡ u = ok_inj (ap (λ (o : Result User × App). o.0) (sym h')) in
          let hit = (find-some (λ (u : User). u.id == link.user_id) s.users owner).1 in
          (
            inl (link, linked, rw same owner),
            (
              link,
              ap (λ (o : Result User × App). find (is_link profile) o.1.oauth_providers) (sym h')
                  ∙ linked,
              sym ((eq_iff u.id link.user_id).0 hit) ∙ ap (λ (v : User). v.id) (sym same),
            ),
          )
    ]
    | inl absent ↦
        let (found, s1, known, rest) =
          bind-ok (link_existing profile account now)
            (λ found. user_or_new profile account now found) s (rw absent at h) in
        elim (joined profile account now s s1 found absent known) [
          | inl (nobody, same) ↦
              let (new_one, after) =
                made profile account now s t user (rw same at (rw nobody at rest)) in
              (inr (inr new_one), after)
          | inr (u, is, origin, linked) ↦
              let h' = rw is at rest in
              let (same, ends) = pure-ok u user s1 t h' in
              (inr (inl (rw same origin)), rw (same, ends) linked)
        ]
  ]

  signed_in :
      (agent : Option String) (fresh : FreshToken) (s t : App) (session : Session)
      → oauth_login profile agent account fresh now s ≡ (ok session, t)
      → (user : User) × IsOf user s
        × (user.is_active ≡ true)
        × (session.access_token ≡ token_for now user)
        × IsLinked profile user t
  unfolding oauth_login
  signed_in agent fresh s t session h =
      let existing = find (is_link profile) s.oauth_providers in
      let deactivated = forbidden "Your account has been deactivated. Please contact support." in
      let choose = known_user profile account now existing >>= λ found.
      user_or_new profile account now found in
      let after =
        λ (user : User). unless user.is_active deactivated >> respond user agent fresh now in
      let (found, s1, known, rest) =
        bind-ok (known_user profile account now existing)
          (λ found. user_or_new profile account now found >>= after) s h in
      let (user, s2, picked, rest') =
        bind-ok (user_or_new profile account now found) after s1 rest in
      let (_, s3, passed, ran) =
        bind-ok (unless user.is_active deactivated) (λ _. respond user agent fresh now) s2 rest' in
      let (active, same) = unless-ok user.is_active deactivated s2 passed in
      let (origin, linked) = chosen s s2 user (rw known picked) in
      let (kept, token) = responded now user agent fresh s3 t session ran in
      (
        user,
        origin,
        active,
        token,
        (
          linked.0,
          ap (find (is_link profile)) (kept ∙ ap (λ (x : App). x.oauth_providers) same) ∙ linked.1,
          linked.2,
        ),
      )

module _ {prisma : Prisma} (laws : PrismaLaws prisma) ⦃env : Env⦄ where
  -- A sign-in by a provider that answers is that of an active user: of the user whom the provider's
  -- account was linked to; or else, where it was linked to nobody, of the user with the e-mail that
  -- the provider gave, or of a new account, where no user had its e-mail. The access token is the one
  -- of that user, pending if the user has a second factor, and from then on the provider's account is
  -- linked to that user.
  pub oauth_login-IsOf :
      (profile : OauthProfile) (agent : Option String) (account : FreshAccount) (fresh : FreshToken)
      (now : ℕ) (s t : App) (session : Session)
      → oauth_login ⦃prisma = prisma⦄ profile agent account fresh now s ≡ (ok session, t)
      → (user : User) × IsOf profile account now user s
        × (user.is_active ≡ true)
        × (session.access_token ≡ token_for now user)
        × IsLinked profile user t
  oauth_login-IsOf = rw (by_lists laws) (λ profile agent account fresh now s t session h.
      signed_in profile account now agent fresh s t session h)
