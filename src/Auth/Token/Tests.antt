-- ===== src/Auth/Token/Tests.antt =====
-- Rotation of the sample session's refresh token.
use nest_nexus.Prelude.{
  false, Has, head, Bool, true, Option, none, some, sym, ap, ◌≡◌, refl, [], ◌∷◌,
}
use nest_nexus.Exec.{ok}
use nest_nexus.Prisma.{list_prisma, list_prisma_laws}
use nest_nexus.Schema.{RefreshToken, App}
use nest_nexus.Auth.Token.Devices.{DeviceSession, list_device_sessions, revoke_device_session}
use nest_nexus.Auth.Token.Devices.Listed.{IsLive, revoke_device_session-unlisted}
use nest_nexus.Samples.{
  stored_order, stored_order_laws, ada, token_of, sample, payload_of, sample_env, fresh_token,
  other_token,
}
use nest_nexus.Auth.Token.{Rotation, revoked, rotate_refresh_token}
use nest_nexus.Auth.Token.Families.{presented, IsRejected}
use nest_nexus.Auth.Token.Reuse.{rotate-reuse, rotate_replay}

-- The session's token was revoked already.
abbrev used : App
used = record sample { refresh_tokens = revoked (token_of "raw" "family") ∷ [] }

abbrev was_revoked : Option RefreshToken → Bool
was_revoked none = true
was_revoked (some t) = t.is_revoked

found_revoked :
    (t : RefreshToken)
    → presented "raw" (payload_of "raw") used.refresh_tokens ≡ some t
    → t.is_revoked ≡ true
found_revoked t h = sym (ap was_revoked h)

rotate-reuse_example : IsRejected (payload_of "raw") (rotate_refresh_token "raw" fresh_token 5 used)
rotate-reuse_example =
    rotate-reuse list_prisma_laws "raw" fresh_token 5 used (payload_of "raw") ada refl refl refl
      found_revoked

abbrev rotation : Rotation
rotation = record { access_token = "ada"; refresh_token = "new"; user_id = "ada" }

abbrev rotated : App
rotated = (rotate_refresh_token "raw" fresh_token 5 sample).1

rotates : rotate_refresh_token "raw" fresh_token 5 sample ≡ (ok rotation, rotated)
unfolding rotate_refresh_token
rotates = refl

rotate_replay_example :
    IsRejected (payload_of "raw") (rotate_refresh_token "raw" other_token 6 rotated)
rotate_replay_example =
    rotate_replay list_prisma_laws "raw" fresh_token other_token 5 6 sample rotated
      (payload_of "raw") rotation refl refl rotates

-- Ada's only session is on the laptop.
abbrev laptop : DeviceSession
laptop = record {
  device_id = "laptop";
  device_name = none;
  user_agent = none;
  last_used_at = 0;
  created_at = 0;
  is_current = false;
}

abbrev without_phone : App
without_phone = (revoke_device_session "ada" "phone" sample).1

lists_laptop : (list_device_sessions "ada" none 5 without_phone).0 ≡ ok (laptop ∷ [])
unfolding list_device_sessions revoke_device_session
lists_laptop = refl

revoke_device_session-unlisted_example :
    (¬ (laptop.device_id ≡ "phone"))
    × ((t : RefreshToken) × Has t sample.refresh_tokens
        × (t.device_id ≡ some "laptop")
        × IsLive "ada" 5 t)
revoke_device_session-unlisted_example =
    revoke_device_session-unlisted list_prisma_laws stored_order_laws "ada" "phone" none 5 sample
      (laptop ∷ []) lists_laptop laptop head
