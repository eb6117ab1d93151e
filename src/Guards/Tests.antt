-- ===== src/Guards/Tests.antt =====
-- A state that comes back.
use nest_nexus.Prelude.{String, Option, Bool, ◌≡◌, ◌↔◌, some, true, truthy}
use nest_nexus.Exec.{Result, ok}
use nest_nexus.Guards.OauthCsrf.{oauth_callback_guard, oauth_callback_guard-ok_iff}

oauth_callback_guard-ok_iff_example :
    (oauth_callback_guard (some "state") (some "state") (ok true) ≡ ok true) ↔ (
      (truthy (some "state") ≡ true)
      × ◌≡◌ {A = Option String} (some "state") (some "state")
      × ◌≡◌ {A = Result Bool} (ok true) (ok true))
oauth_callback_guard-ok_iff_example =
    oauth_callback_guard-ok_iff (some "state") (some "state") (ok true)
