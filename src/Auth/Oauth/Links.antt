-- ===== src/Auth/Oauth/Links.antt =====
-- `oauthLogin` of src/modules/auth/auth.service.ts: how an account of a provider is linked to a user.
use nest_nexus.Prelude.{
  ℕ, String, ◌≡◌, ◌⊎◌, refl, sym, ap, ◌∙◌, inl, inr, arith, true, false, Option, none, some, List,
  [], ◌∷◌, ◌++◌, ◌==◌, string_eq, eq_iff, eq_refl, or_else, truthy, any, find, none-of-any,
  find-last, Bool-cases,
}
use nest_nexus.Exec.{Exception, http, other, prisma_known, Result, ok, failed, ok_inj}
use nest_nexus.Prisma.{list_prisma}
use nest_nexus.Schema.{User, OauthProvider, user_clash, oauth_provider_clash, App}
use nest_nexus.Store.{users}
use nest_nexus.Store.Updates.{update-cases}
use nest_nexus.Env.{Env}
use nest_nexus.Auth.Service.{OauthProfile}
use nest_nexus.Auth.Oauth.{
  FreshAccount, is_link, new_link, no_account, link_existing, account_email, oauth_user,
  user_or_new,
}

-- A link that no row clashes with is the link of its profile.
link_clashes :
    (profile : OauthProfile) (id user_id : String) (r : OauthProvider)
    → is_link profile r ≡ true
    → oauth_provider_clash (new_link profile id user_id) r ≡ true
link_clashes profile id user_id r h = ground (
  arith,
  eq_iff r.provider profile.provider,
  eq_iff r.provider_id profile.provider_id,
  eq_iff profile.provider r.provider,
  eq_iff profile.provider_id r.provider_id,
)

is_link-new_link :
    (profile : OauthProfile) (id user_id : String)
    → is_link profile (new_link profile id user_id) ≡ true
is_link-new_link profile id user_id =
    rw (eq_refl profile.provider, eq_refl profile.provider_id) refl

-- The link of a profile is to the user.
abbrev pub IsLinked : OauthProfile → User → App → Type 0
IsLinked profile user s =
    (link : OauthProvider) × (find (is_link profile) s.oauth_providers ≡ some link)
    × (link.user_id ≡ user.id)

linked_now :
    (profile : OauthProfile) (id : String) (user : User) (rows : List OauthProvider) (t : App)
    → any (oauth_provider_clash (new_link profile id user.id)) rows ≡ false
    → t.oauth_providers ≡ rows ++ new_link profile id user.id ∷ []
    → (find (is_link profile) rows ≡ none) × IsLinked profile user t
linked_now profile id user rows t free wrote =
    let absent =
      none-of-any (is_link profile) (oauth_provider_clash (new_link profile id user.id))
        (link_clashes profile id user.id) rows free in
    (
      absent,
      (
        new_link profile id user.id,
        ap (find (is_link profile)) wrote
            ∙ find-last (is_link profile) rows (new_link profile id user.id) absent
                (is_link-new_link profile id user.id),
        refl,
      ),
    )

-- The handler of a failed link goes on only with no account.
no_account-ok :
    (e : Exception) (s t : App) (found : Option User)
    → no_account e s ≡ (ok found, t)
    → (found ≡ none) × (t ≡ s)
no_account-ok (http n m) s t found h = failed h
no_account-ok (other m) s t found h = failed h
no_account-ok (prisma_known code) s t found h = elim (Bool-cases (code == "P2025")) [
  | inl missing ↦
      let h' = rw missing at h in
      (
        ok_inj (ap (λ (o : Result (Option User) × App). o.0) (sym h')),
        ap (λ (o : Result (Option User) × App). o.1) (sym h'),
      )
  | inr another ↦ failed (rw another at h)
]

module _ ⦃env : Env⦄ (profile : OauthProfile) (account : FreshAccount) (now : ℕ) where
  abbrev pub IsNew : User → App → Type 0
  IsNew user s =
      (user ≡ oauth_user profile account now)
      × (find (λ u. u.email == account_email profile) s.users ≡ none)
      × (find (is_link profile) s.oauth_providers ≡ none)

  same_email :
      (u : User)
      → (u.email == account_email profile) ≡ true
      → user_clash (oauth_user profile account now) u ≡ true
  same_email u h =
      ground (arith, eq_iff u.email (account_email profile), eq_iff (account_email profile) u.email)

  pub made :
      (s t : App) (user : User)
      → user_or_new profile account now none s ≡ (ok user, t)
      → IsNew user s × IsLinked profile user t
  made s t user h = elim (Bool-cases (any (user_clash (oauth_user profile account now)) s.users)) [
    | inl taken ↦ failed (rw taken at h)
    | inr free ↦
        elim (Bool-cases (
          any (oauth_provider_clash (new_link profile account.link_id account.user_id))
            s.oauth_providers)) [
              | inl linked ↦ failed (rw linked at (rw free at h))
              | inr unlinked ↦
                  let h' = rw unlinked at (rw free at h) in
                  let fresh_user = oauth_user profile account now in
                  let same : user ≡ fresh_user =
                    ok_inj (ap (λ (o : Result User × App). o.0) (sym h')) in
                  let (absent, linked) =
                    linked_now profile account.link_id fresh_user s.oauth_providers t unlinked
                      (ap (λ (o : Result User × App). o.1.oauth_providers) (sym h')) in
                  (
                    (
                      same,
                      none-of-any (λ u. u.email == account_email profile) (user_clash fresh_user)
                          same_email s.users free,
                      absent,
                    ),
                    rw same linked,
                  )
            ]
  ]

  -- The account of the e-mail, when there is one.
  abbrev pub IsJoined : User → App → Type 0
  IsJoined user s =
      (truthy profile.email ≡ true)
      × (find (is_link profile) s.oauth_providers ≡ none)
      × (u : User) × (find (λ u. u.email == env.to_lower_case (or_else profile.email "")) s.users
          ≡ some u)
      × (user ≡ record u { updated_at = now })

  pub joined :
      (s t : App) (found : Option User)
      → find (is_link profile) s.oauth_providers ≡ none
      → link_existing profile account now s ≡ (ok found, t)
      → ((found ≡ none) × (t ≡ s))
        ⊎ ((user : User) × (found ≡ some user) × IsJoined user s × IsLinked profile user t)
  joined s t found absent h = elim (Bool-cases (truthy profile.email)) [
    | inr no_email ↦
        let h' = rw no_email at h in
        inl (
          ok_inj (ap (λ (o : Result (Option User) × App). o.0) (sym h')),
          ap (λ (o : Result (Option User) × App). o.1) (sym h'),
        )
    | inl has_email ↦
        let q = λ (u : User). u.email == env.to_lower_case (or_else profile.email "") in
        let f = λ (u : User). record u { updated_at = now } in
        elim (update-cases users q f s) [
          | inl (e, refusal) ↦ inl (no_account-ok e s t found (rw refusal at (rw has_email at h)))
          | inr (u, stored, done) ↦
              elim (Bool-cases (
                any (oauth_provider_clash (new_link profile account.link_id u.id))
                  s.oauth_providers)) [
                    | inl clash ↦
                        failed (rw clash at (rw absent at (rw done at (rw has_email at h))))
                    | inr free ↦
                        let h' = rw free at (rw absent at (rw done at (rw has_email at h))) in
                        let (_, linked) =
                          linked_now profile account.link_id (f u) s.oauth_providers t free (
                            ap (λ (o : Result (Option User) × App). o.1.oauth_providers)
                              (sym h')) in
                        inr (
                          f u,
                          ok_inj (ap (λ (o : Result (Option User) × App). o.0) (sym h')),
                          (has_email, absent, u, stored, refl),
                          linked,
                        )
                  ]
        ]
  ]
