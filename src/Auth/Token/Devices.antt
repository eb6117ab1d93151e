-- ===== src/Auth/Token/Devices.antt =====
-- src/modules/auth/token.service.ts: the sessions of a user by device.
pub mod Listed
use nest_nexus.Prelude.{
  arith, ℕ, ◌<◌, String, ◌≡◌, refl, sym, ap, ◌∙◌, ◌⊎◌, inl, inr, Bool, true, false, not, ◌&&◌,
  Option, none, some, List, [], ◌∷◌, map, ◌==◌, string_eq, eq_iff, if◌then◌else◌, or_else, is_some,
  ltb, truthy, filter, take, Has, head, later, ◌↔◌, Has-cons, Has-one, Has-map, Has-take,
  Has-filter, Bool-cases, and-true,
}
use nest_nexus.Exec.{Result, ok, Exec, pure, ◌>>=◌, ◌>>◌, ok_inj}
use nest_nexus.Prisma.{Prisma, OrderBy}
use nest_nexus.Schema.{RefreshToken, App}
use nest_nexus.Store.{refresh_tokens, find_first, find_page, delete_many}
use nest_nexus.Env.{Env}
use nest_nexus.Auth.Token.{hash_refresh_token}

pub record DeviceSession : Type 0 where
  pub device_id : String
  pub device_name : Option String
  pub user_agent : Option String
  pub last_used_at : ℕ
  pub created_at : ℕ
  pub is_current : Bool

-- The later of two times of use, where a token that was never used counts as older.
abbrev newer : Option ℕ → Option ℕ → Bool
newer none b = false
newer (some a) none = true
newer (some a) (some b) = ltb b a

-- `deviceMap.set` after the test of the loop's body: the place of a key is that of its first token.
unfoldable pub put_device :
    String → RefreshToken → List (String × RefreshToken) → List (String × RefreshToken)
put_device id token [] = (id, token) ∷ []
put_device id token ((key, existing) ∷ rest) =
    if key == id
    then (key, if newer token.last_used_at existing.last_used_at then token else existing) ∷ rest
    else (key, existing) ∷ put_device id token rest

abbrev pub add_device :
    RefreshToken → Option String → List (String × RefreshToken) → List (String × RefreshToken)
add_device token none devices = devices
add_device token (some id) devices = if id == "" then devices else put_device id token devices

unfoldable pub device_map :
    List RefreshToken → List (String × RefreshToken) → List (String × RefreshToken)
unfolding put_device
device_map [] devices = devices
device_map (token ∷ tokens) devices = device_map tokens (add_device token token.device_id devices)

abbrev pub to_session : Option String → String × RefreshToken → DeviceSession
to_session current (id, token) = record {
  device_id = id;
  device_name = token.device_name;
  user_agent = token.user_agent;
  last_used_at = or_else token.last_used_at token.created_at;
  created_at = token.created_at;
  is_current = if is_some current then id == or_else current "" else false;
}

-- The `where` clause of the active tokens that belong to a device.
abbrev pub is_active_token : String → ℕ → RefreshToken → Bool
is_active_token user_id now t =
    t.user_id == user_id && not t.is_revoked && ltb now t.expires_at && is_some t.device_id

module _ ⦃prisma : Prisma⦄ ⦃env : Env⦄ where
  unfoldable pub list_device_sessions :
      ⦃order : OrderBy⦄ → String → Option String → ℕ → Exec App (List DeviceSession)
  unfolding device_map
  list_device_sessions user_id current_device_id now = do
    tokens ← find_page refresh_tokens (is_active_token user_id now) (λ t. t.last_used_at) 0 100
    pure (map (to_session current_device_id) (device_map tokens []))

  unfoldable pub revoke_device_session : String → String → Exec App (Unit {0})
  revoke_device_session user_id device_id =
      delete_many refresh_tokens (λ t.
        t.user_id == user_id
        && (if is_some t.device_id then or_else t.device_id "" == device_id else false))
      >> pure tt

  abbrev device_of : Option RefreshToken → Option String
  device_of none = none
  device_of (some token) = token.device_id

  unfoldable pub get_current_device_id : String → Option String → Exec App (Option String)
  get_current_device_id user_id raw_refresh_token =
      if truthy raw_refresh_token
      then (do
        token ← find_first refresh_tokens (λ t.
            t.user_id == user_id
            && t.token_hash == hash_refresh_token (or_else raw_refresh_token ""))
        pure (device_of token))
      else pure none
