-- ===== src/Invalidation/Tests.antt =====
-- An update and a read of a sample profile.
use nest_nexus.Prelude.{◌≡◌, refl, some, none, [], ◌∷◌}
use nest_nexus.Exec.{ok}
use nest_nexus.Prisma.{list_prisma, list_prisma_laws}
use nest_nexus.Schema.{UserOutput, to_user_output, App, user_updated, user_output}
use nest_nexus.Cache.{map_cache, map_cache_laws}
use nest_nexus.Samples.{ada, sample}
use nest_nexus.Users.{UpdateUserInput, update_user, find_by_id}
use nest_nexus.Invalidation.Coherence.{heard, update_user-find_by_id}

abbrev new_name : UpdateUserInput
new_name = record { display_name = some "Ada L."; avatar_url = none }

abbrev named_ada : UserOutput
named_ada = to_user_output (record ada { display_name = "Ada L."; updated_at = 7 })

-- The old profile is cached everywhere.
abbrev stale : App
stale = record sample { cache = λ key. some (user_output (to_user_output ada), 1000) }

abbrev renamed : App
renamed = (update_user "ada" new_name 7 stale).1

renames : update_user "ada" new_name 7 stale ≡ (ok named_ada, renamed)
unfolding update_user
renames = refl

update_user-find_by_id_example :
    (renamed.events ≡ user_updated "ada" ∷ [])
    × ((find_by_id "ada" 8 (heard renamed.events renamed)).0 ≡ ok named_ada)
update_user-find_by_id_example =
    update_user-find_by_id list_prisma_laws map_cache_laws "ada" new_name 7 8 stale renamed
      named_ada renames
