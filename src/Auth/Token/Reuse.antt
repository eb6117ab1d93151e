-- ===== src/Auth/Token/Reuse.antt =====
-- src/modules/auth/token.service.ts: a refresh token that is presented again.
use nest_nexus.Prelude.{
  ℕ, String, ◌≡◌, refl, sym, ap, ◌∙◌, inl, inr, true, false, not, ◌&&◌, some, List, [], ◌∷◌, ◌++◌,
  ◌==◌, string_eq, eq_refl, if◌then◌else◌, any, find, filter, take, map_if, is_nil, Bool-cases,
  Option-cases, filter-map_if, find-map_if, take-map_if, filter-append, find-take-append,
}
use nest_nexus.Exec.{failed, ◌>>=◌, Result, ok}
use nest_nexus.Prisma.{Prisma, PrismaLaws, list_prisma, by_lists}
use nest_nexus.Schema.{User, RefreshToken, refresh_token_clash, App}
use nest_nexus.Env.{RefreshTokenPayload, Env}
use nest_nexus.Auth.Token.{
  FreshToken, Rotation, in_family, revoked, hash_refresh_token, new_token, kept_options,
  revoke_token_family, replace_token, rotate_refresh_token, matched_token,
}
use nest_nexus.Auth.Token.Families.{
  some_inj, presented, owner_of, genuine, IsRejected, reuse_refused,
}

module _ ⦃env : Env⦄ where
  -- The rows after the old token is revoked and the new one added.
  abbrev rotated_rows :
      RefreshTokenPayload → User → RefreshToken → FreshToken → ℕ → App → List RefreshToken
  rotated_rows payload user token fresh now s =
      map_if (λ u. u.id == token.id) revoked s.refresh_tokens
      ++ new_token user.id (kept_options payload token) fresh now ∷ []

  -- What a successful rotation found and wrote.
  record Rotated (raw : String) (fresh : FreshToken) (now : ℕ) (s t : App)
      (payload : RefreshTokenPayload) : Type 0 where
    user : User
    token : RefreshToken
    owned : owner_of payload s ≡ some user
    active : user.is_active ≡ true
    found : presented raw payload s.refresh_tokens ≡ some token
    live : token.is_revoked ≡ false
    same_users : t.users ≡ s.users
    written : t.refresh_tokens ≡ rotated_rows payload user token fresh now s

  -- The last two writes.
  replace_inversion :
      (payload : RefreshTokenPayload) (user : User) (token : RefreshToken) (fresh : FreshToken)
      (now : ℕ) (s t : App) (r : Rotation)
      → replace_token payload user token fresh now s ≡ (ok r, t)
      → (t.users ≡ s.users) × (t.refresh_tokens ≡ rotated_rows payload user token fresh now s)
  unfolding replace_token
  replace_inversion payload user token fresh now s t r h =
      elim (Option-cases (find (λ u. u.id == token.id) s.refresh_tokens)) [
        | inl missing ↦ failed (rw missing at h)
        | inr (row, found) ↦
            elim (Bool-cases (
              any (λ u. not (u.id == token.id) && refresh_token_clash (revoked row) u)
                s.refresh_tokens)) [
                  | inl taken ↦ failed (rw taken at (rw found at h))
                  | inr free ↦
                      elim (Bool-cases (
                        any
                          (refresh_token_clash
                            (new_token user.id (kept_options payload token) fresh now))
                          (map_if (λ u. u.id == token.id) revoked s.refresh_tokens))) [
                            | inl clashes ↦ failed (rw clashes at (rw free at (rw found at h)))
                            | inr added ↦
                                let done = rw added at (rw free at (rw found at h)) in
                                (
                                  ap (λ (o : Result Rotation × App). o.1.users) (sym done),
                                  ap (λ (o : Result Rotation × App). o.1.refresh_tokens) (sym done),
                                )
                          ]
                ]
      ]

  abbrev family_of : RefreshTokenPayload → App → List RefreshToken
  family_of payload s = take 50 (filter (in_family payload.sub payload.family) s.refresh_tokens)

  -- Only a live token gets through.
  matched_inversion :
      (raw : String) (payload : RefreshTokenPayload) (user : User) (fresh : FreshToken) (now : ℕ)
      (s t : App) (r : Rotation)
      → (matched_token payload (family_of payload s) (presented raw payload s.refresh_tokens)
            >>= λ token. replace_token payload user token fresh now)
          s
        ≡ (ok r, t)
      → (token : RefreshToken) × (presented raw payload s.refresh_tokens ≡ some token)
        × (token.is_revoked ≡ false)
        × (replace_token payload user token fresh now s ≡ (ok r, t))
  unfolding revoke_token_family replace_token
  matched_inversion raw payload user fresh now s t r h =
      elim (Option-cases (presented raw payload s.refresh_tokens)) [
        | inl unknown ↦ elim (Bool-cases (is_nil (family_of payload s))) [
          | inl gone ↦ failed (rw gone at (rw unknown at h))
          | inr others ↦ failed (rw others at (rw unknown at h))
        ]
        | inr (token, found) ↦ elim (Bool-cases token.is_revoked) [
          | inl spent ↦ failed (rw spent at (rw found at h))
          | inr live ↦ (token, found, live, rw live at (rw found at h))
        ]
      ]

  rotation_inversion :
      (raw : String) (fresh : FreshToken) (now : ℕ) (s t : App) (payload : RefreshTokenPayload)
      (r : Rotation)
      → genuine raw now ≡ some payload
      → rotate_refresh_token raw fresh now s ≡ (ok r, t)
      → Rotated raw fresh now s t payload
  unfolding rotate_refresh_token
  rotation_inversion raw fresh now s t payload r verified h =
      elim (Option-cases (owner_of payload s)) [
        | inl missing ↦ failed (rw missing at (rw verified at h))
        | inr (user, owned) ↦ elim (Bool-cases user.is_active) [
          | inr inactive ↦ failed (rw inactive at (rw owned at (rw verified at h)))
          | inl active ↦
              let (token, found, live, done) =
                matched_inversion raw payload user fresh now s t r
                  (rw active at (rw owned at (rw verified at h))) in
              let (same_users, written) =
                replace_inversion payload user token fresh now s t r done in
              record {
                user = user;
                token = token;
                owned = owned;
                active = active;
                found = found;
                live = live;
                same_users = same_users;
                written = written;
              }
        ]
      ]

  -- After the rotation the old token is still found, now revoked.
  rotated-presented :
      (raw : String) (payload : RefreshTokenPayload) (user : User) (token : RefreshToken)
      (fresh : FreshToken) (now : ℕ) (s : App)
      → presented raw payload s.refresh_tokens ≡ some token
      → presented raw payload (rotated_rows payload user token fresh now s) ≡ some (revoked token)
  rotated-presented raw payload user token fresh now s found =
      let mine = in_family payload.sub payload.family in
      let hash = λ (t : RefreshToken). t.token_hash == hash_refresh_token raw in
      let old = λ (t : RefreshToken). t.id == token.id in
      let kept : find hash (take 50 (map_if old revoked (filter mine s.refresh_tokens)))
          ≡ some (revoked token) =
        ap (find hash) (take-map_if old revoked 50 (filter mine s.refresh_tokens))
        ∙ find-map_if hash old revoked (λ x. refl) (take 50 (filter mine s.refresh_tokens)) found
        ∙ ap (λ b. some (if b then revoked token else token)) (eq_refl token.id) in
      let split : filter mine (rotated_rows payload user token fresh now s)
          ≡ map_if old revoked (filter mine s.refresh_tokens)
            ++ filter mine (new_token user.id (kept_options payload token) fresh now ∷ []) =
        filter-append mine (map_if old revoked s.refresh_tokens) _
        ∙ ap
            (λ rows.
              rows ++ filter mine (new_token user.id (kept_options payload token) fresh now ∷ []))
            (filter-map_if mine old revoked (λ x. refl) s.refresh_tokens) in
      ap (λ rows. find hash (take 50 rows)) split
      ∙ find-take-append hash 50 (map_if old revoked (filter mine s.refresh_tokens)) _ kept

  replay :
      (raw : String) (fresh again : FreshToken) (now later_on : ℕ) (s t : App)
      (payload : RefreshTokenPayload) (r : Rotation)
      → genuine raw now ≡ some payload
      → genuine raw later_on ≡ some payload
      → rotate_refresh_token raw fresh now s ≡ (ok r, t)
      → IsRejected payload (rotate_refresh_token raw again later_on t)
  replay raw fresh again now later_on s t payload r verified verified' h =
      let d = rotation_inversion raw fresh now s t payload r verified h in
      reuse_refused raw again later_on t payload d.user verified' (rw d.same_users d.owned) d.active
        (λ u found.
          let was = rotated-presented raw payload d.user d.token fresh now s d.found in
          ap (λ (v : RefreshToken). v.is_revoked)
            (some_inj (sym found ∙ ap (presented raw payload) d.written ∙ was)))

module _ {prisma : Prisma} (laws : PrismaLaws prisma) ⦃env : Env⦄ where
  -- A refresh token whose family is known and whose owner is active, presented when none of its
  -- stored copies is live, is refused with 401, and afterwards its family has no token left.
  pub rotate-reuse :
      (raw : String) (fresh : FreshToken) (now : ℕ) (s : App) (payload : RefreshTokenPayload)
      (user : User)
      → genuine raw now ≡ some payload
      → owner_of payload s ≡ some user
      → user.is_active ≡ true
      → ((t : RefreshToken) → presented raw payload s.refresh_tokens ≡ some t → t.is_revoked ≡ true)
      → IsRejected payload (rotate_refresh_token ⦃prisma = prisma⦄ raw fresh now s)
  rotate-reuse = rw (by_lists laws) reuse_refused

  -- After a successful rotation the same raw token, as long as it verifies, is refused with 401 when
  -- it is presented again, and that ends its family: the new token is deleted as well.
  pub rotate_replay :
      (raw : String) (fresh again : FreshToken) (now later_on : ℕ) (s t : App)
      (payload : RefreshTokenPayload) (r : Rotation)
      → genuine raw now ≡ some payload
      → genuine raw later_on ≡ some payload
      → rotate_refresh_token ⦃prisma = prisma⦄ raw fresh now s ≡ (ok r, t)
      → IsRejected payload (rotate_refresh_token ⦃prisma = prisma⦄ raw again later_on t)
  rotate_replay = rw (by_lists laws) replay
