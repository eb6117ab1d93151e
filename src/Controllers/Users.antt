-- ===== src/Controllers/Users.antt =====
-- src/modules/users/users.controller.ts, whose class has the guard of the roles.
use nest_nexus.Prelude.{ℕ, String, Option, List, [], ◌∷◌}
use nest_nexus.Exec.{Exec, pure, ◌>>=◌}
use nest_nexus.Prisma.{Prisma}
use nest_nexus.Enums.{admin, super_admin}
use nest_nexus.Env.{JwtPayload}
use nest_nexus.Cache.{CacheManager}
use nest_nexus.Users.{UpdateUserInput, find_all, find_by_id, update_user, set_roles, deactivate}
use nest_nexus.Http.{Body, user, users, Exchange, on_app, current_user, Decorators, undecorated}

-- The id of the path, and the roles of SetRolesInput.
pub data Route : Type 0 where
  get_profile get_users : Route
  get_user : String → Route
  patch_profile : UpdateUserInput → Route
  patch_roles : String → List String → Route
  delete_user : String → Route

unfoldable pub decorators : Route → Decorators
decorators get_profile = undecorated
decorators get_users = record undecorated { roles = admin ∷ super_admin ∷ [] }
decorators (get_user id) = undecorated
decorators (patch_profile input) = undecorated
decorators (patch_roles id roles) = record undecorated { roles = super_admin ∷ [] }
decorators (delete_user id) = record undecorated { roles = admin ∷ super_admin ∷ [] }

module _ ⦃prisma : Prisma⦄ ⦃cache : CacheManager⦄ where
  unfoldable pub run : Route → Option JwtPayload → ℕ → Exec Exchange Body
  run get_profile found now = do
    me ← current_user found
    out ← on_app (find_by_id me.sub now)
    pure (user out)
  run get_users found now = do outs ← on_app (find_all now); pure (users outs)
  run (get_user id) found now = do out ← on_app (find_by_id id now); pure (user out)
  run (patch_profile input) found now = do
    me ← current_user found
    out ← on_app (update_user me.sub input now)
    pure (user out)
  run (patch_roles id roles) found now = do out ← on_app (set_roles id roles now); pure (user out)
  run (delete_user id) found now = do out ← on_app (deactivate id now); pure (user out)
