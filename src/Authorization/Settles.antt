-- ===== src/Authorization/Settles.antt =====
-- The decision as a read of the database.
use nest_nexus.Prelude.{String, ◌≡◌, refl, Bool, true, false, some, string_eq, if◌then◌else◌}
use nest_nexus.Exec.{ok, Exec, pure}
use nest_nexus.Prisma.{list_prisma}
use nest_nexus.Enums.{Permission, document_read, Relation}
use nest_nexus.Schema.{App}
use nest_nexus.Authorization.Policies.{AuthSubject}
use nest_nexus.Authorization.Relations.{check}
use nest_nexus.Authorization.Decision.{DocumentResource, decide_action, can}

pub record Settles (m : Exec App Bool) : Type 0 where
  pub at : (s : App) → (b : Bool) × (m s ≡ (ok b, s))

pure-Settles : (b : Bool) → Settles (pure b)
pure-Settles b = record { at = λ s. (b, refl) }

if-Settles : (c : Bool) (m n : Exec App Bool) → Settles m → Settles n → Settles (if c then m else n)
if-Settles true m n hm hn = hm
if-Settles false m n hm hn = hn

check-Settles :
    (sub : String) (required : Relation) (type id : String) → Settles (check sub required type id)
unfolding check
check-Settles sub required type id = record { at = λ s. (_, refl) }

ruleset settles_rules = (pure-Settles, if-Settles, check-Settles)

action-Settles :
    (u : AuthSubject) (a : Permission) (r : DocumentResource) → Settles (decide_action u a r)
action-Settles u document_read r = search settles_rules
action-Settles u _ r = search settles_rules

pub can-Settles :
    (u : AuthSubject) (a : Permission) (r : DocumentResource) → Settles (can (some u) a r)
unfolding can
can-Settles u a r = search (settles_rules, action-Settles)
