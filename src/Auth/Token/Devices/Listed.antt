-- ===== src/Auth/Token/Devices/Listed.antt =====
-- src/modules/auth/token.service.ts: what the list of device sessions shows.
use nest_nexus.Prelude.{
  arith, ℕ, ◌<◌, String, ◌≡◌, sym, ap, ◌∙◌, ◌⊎◌, inl, inr, true, false, not, ◌&&◌, Option, none,
  some, List, [], ◌∷◌, map, ◌==◌, string_eq, eq_iff, eq_refl, if◌then◌else◌, or_else, is_some,
  filter, take, Has, head, later, Has-cons, Has-one, Has-map, Has-take, Has-filter, Bool-cases,
}
use nest_nexus.Exec.{ok, ok_inj}
use nest_nexus.Prisma.{Prisma, PrismaLaws, list_prisma, by_lists, OrderBy, OrderByLaws}
use nest_nexus.Schema.{RefreshToken, App}
use nest_nexus.Env.{Env}
use nest_nexus.Auth.Token.Devices.{
  DeviceSession, newer, put_device, add_device, device_map, to_session, is_active_token,
  list_device_sessions, revoke_device_session,
}

put_device-Has :
    (id : String) (token : RefreshToken) (ds : List (String × RefreshToken)) (k : String)
    (t : RefreshToken)
    → Has (k, t) (put_device id token ds)
    → ((k ≡ id) × (t ≡ token)) ⊎ Has (k, t) ds
unfolding put_device
put_device-Has id token [] k t h =
    let same = Has-one h in
    inl (ap (λ (p : String × RefreshToken). p.0) same, ap (λ (p : String × RefreshToken). p.1) same)
put_device-Has id token ((key, old) ∷ rest) k t h = elim (Bool-cases (key == id)) [
  | inr miss ↦ elim (Has-cons (rw miss at h)) [
    | inl same ↦ inr (rw same head)
    | inr below ↦ elim (put_device-Has id token rest k t below) [
      | inl new ↦ inl new
      | inr was ↦ inr (later was)
    ]
  ]
  | inl hit ↦ elim (Bool-cases (newer token.last_used_at old.last_used_at)) [
    | inl fresher ↦ elim (Has-cons (rw fresher at (rw hit at h))) [
      | inl same ↦ inl (
        ap (λ (p : String × RefreshToken). p.0) same ∙ (eq_iff key id).0 hit,
        ap (λ (p : String × RefreshToken). p.1) same,
      )
      | inr below ↦ inr (later below)
    ]
    | inr older ↦ inr (rw older at (rw hit at h))
  ]
]

add_device-Has :
    (token : RefreshToken) (id : Option String) (ds : List (String × RefreshToken)) (k : String)
    (t : RefreshToken)
    → Has (k, t) (add_device token id ds)
    → ((id ≡ some k) × (t ≡ token)) ⊎ Has (k, t) ds
add_device-Has token none ds k t h = inr h
add_device-Has token (some id) ds k t h = elim (Bool-cases (id == "")) [
  | inl empty ↦ inr (rw empty at h)
  | inr given ↦ elim (put_device-Has id token ds k t (rw given at h)) [
    | inl new ↦ inl (ap (λ x. some x) (sym new.0), new.1)
    | inr was ↦ inr was
  ]
]

device_map-Has :
    (tokens : List RefreshToken) (ds : List (String × RefreshToken)) (k : String) (t : RefreshToken)
    → Has (k, t) (device_map tokens ds)
    → (Has t tokens × (t.device_id ≡ some k)) ⊎ Has (k, t) ds
unfolding device_map
device_map-Has [] ds k t h = inr h
device_map-Has (token ∷ tokens) ds k t h =
    elim (device_map-Has tokens (add_device token token.device_id ds) k t h) [
      | inl (place, device) ↦ inl (later place, device)
      | inr early ↦ elim (add_device-Has token token.device_id ds k t early) [
        | inl (device, same) ↦ inl (rw same head, rw same device)
        | inr was ↦ inr was
      ]
    ]

-- A token of the user that is neither revoked nor expired, by its columns.
abbrev pub IsLive : String → ℕ → RefreshToken → Type 0
IsLive user_id now t = (t.user_id ≡ user_id) × (t.is_revoked ≡ false) × (now < t.expires_at)

is_active_token-IsLive :
    (user_id : String) (now : ℕ) (t : RefreshToken)
    → is_active_token user_id now t ≡ true
    → IsLive user_id now t
is_active_token-IsLive user_id now t live =
    ((eq_iff t.user_id user_id).0 (ground arith), ground arith, ground arith)

module _ ⦃env : Env⦄ ⦃order : OrderBy⦄ (sorts : OrderByLaws order) where
  -- A session of the list is that of a stored token.
  abbrev IsListed : String → ℕ → App → DeviceSession → Type 0
  IsListed user_id now s session =
      (t : RefreshToken) × Has t s.refresh_tokens
      × (t.device_id ≡ some session.device_id)
      × (is_active_token user_id now t ≡ true)

  listed :
      (user_id : String) (current : Option String) (now : ℕ) (s : App)
      (sessions : List DeviceSession)
      → (list_device_sessions user_id current now s).0 ≡ ok sessions
      → (session : DeviceSession) → Has session sessions
      → IsListed user_id now s session
  unfolding list_device_sessions
  listed user_id current now s sessions h session place =
      let active = filter (is_active_token user_id now) s.refresh_tokens in
      let sorted = order.order_by_desc (λ (t : RefreshToken). t.last_used_at) active in
      let here_ : Has session (map (to_session current) (device_map (take 100 sorted) [])) =
        rw (ok_inj h) place in
      let ((k, t), at_, from) =
        Has-map (to_session current) (device_map (take 100 sorted) []) here_ in
      elim (device_map-Has (take 100 sorted) [] k t at_) [
        | inl (shown, device) ↦
            let found =
              (sorts.order_by_desc-Has (λ (t : RefreshToken). t.last_used_at) t active).0
                (Has-take 100 sorted shown) in
            let (stored, live) = Has-filter (is_active_token user_id now) s.refresh_tokens found in
            (t, stored, device ∙ ap (λ (x : DeviceSession). some x.device_id) (sym from), live)
        | inr nothing ↦ elim nothing [ ]
      ]

  revoked_gone :
      (user_id device_id : String) (s : App) (t : RefreshToken)
      → Has t (revoke_device_session user_id device_id s).1.refresh_tokens
      → (t.user_id == user_id) ≡ true
      → ¬ (t.device_id ≡ some device_id)
  unfolding revoke_device_session
  revoked_gone user_id device_id s t place owned device =
      let kept =
        (Has-filter
          (λ (t : RefreshToken). not (
            t.user_id == user_id
            && (if is_some t.device_id then or_else t.device_id "" == device_id else false)))
          s.refresh_tokens place).1 in
      let kept' : not (true && (if is_some (some device_id) then device_id == device_id else false))
          ≡ true =
        rw owned at (rw device at kept) in
      let differ : false ≡ true = rw (eq_refl device_id) at kept' in absurd cc

  still_stored :
      (user_id device_id : String) (s : App) (t : RefreshToken)
      → Has t (revoke_device_session user_id device_id s).1.refresh_tokens
      → Has t s.refresh_tokens
  unfolding revoke_device_session
  still_stored user_id device_id s t place =
      (Has-filter
        (λ (t : RefreshToken). not (
          t.user_id == user_id
          && (if is_some t.device_id then or_else t.device_id "" == device_id else false)))
        s.refresh_tokens place).0

  unlisted :
      (user_id device_id : String) (current : Option String) (now : ℕ) (s : App)
      (sessions : List DeviceSession)
      → (list_device_sessions user_id current now (revoke_device_session user_id device_id s).1).0
        ≡ ok sessions
      → (session : DeviceSession) → Has session sessions
      → (¬ (session.device_id ≡ device_id))
        × ((t : RefreshToken) × Has t s.refresh_tokens
            × (t.device_id ≡ some session.device_id)
            × IsLive user_id now t)
  unlisted user_id device_id current now s sessions h session place =
      let after = (revoke_device_session user_id device_id s).1 in
      let (t, stored, device, live) = listed user_id current now after sessions h session place in
      (
        λ same.
            revoked_gone user_id device_id s t stored (owner_of_active t live)
              (device ∙ ap (λ x. some x) same),
        (
          t,
          still_stored user_id device_id s t stored,
          device,
          is_active_token-IsLive user_id now t live,
        ),
      )
    where
      owner_of_active :
          (t : RefreshToken) → is_active_token user_id now t ≡ true → (t.user_id == user_id) ≡ true
      owner_of_active t live = ground arith

module _ {prisma : Prisma} (laws : PrismaLaws prisma) {order : OrderBy} (sorts : OrderByLaws order)
    ⦃env : Env⦄ where
  -- After a user has revoked the session of a device, no list of the user's sessions on the state that
  -- this leaves shows the device, and each session that it shows is that of a token that was stored
  -- before, is the user's, and is neither revoked nor expired at the time of the list.
  pub revoke_device_session-unlisted :
      (user_id device_id : String) (current : Option String) (now : ℕ) (s : App)
      (sessions : List DeviceSession)
      → (list_device_sessions ⦃prisma = prisma⦄ ⦃order = order⦄ user_id current now
          (revoke_device_session ⦃prisma = prisma⦄ user_id device_id s).1).0
        ≡ ok sessions
      → (session : DeviceSession) → Has session sessions
      → (¬ (session.device_id ≡ device_id))
        × ((t : RefreshToken) × Has t s.refresh_tokens
            × (t.device_id ≡ some session.device_id)
            × IsLive user_id now t)
  revoke_device_session-unlisted = rw (by_lists laws) (unlisted ⦃order = order⦄ sorts)
