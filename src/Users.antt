-- ===== src/Users.antt =====
-- src/modules/users/users.service.ts: profiles, with a cache in front, and roles.
mod Counts
pub mod Changes
pub mod SuperAdmins
mod Tests
use Prim.Native.String
use nest_nexus.Prelude.{
  ℕ, String, Bool, true, false, not, ◌&&◌, Option, none, some, List, map, ◌==◌, string_eq,
  if◌then◌else◌, or_else, includes, leb, is_some,
}
use nest_nexus.Exec.{
  Exception, prisma_known, not_found, conflict, Exec, pure, throw, catch, require, ◌>>=◌, ◌>>◌,
}
use nest_nexus.Prisma.{Prisma}
use nest_nexus.Enums.{super_admin}
use nest_nexus.Schema.{
  User, UserOutput, to_user_output, CacheValue, user_output, user_outputs, App, user_updated,
  user_deactivated,
}
use nest_nexus.Store.{users, find_unique, find_many, count_rows, update, emit}
use nest_nexus.Cache.{CacheManager, cache_get, cache_set}
use nest_nexus.Env.{Env}

pub record UpdateUserInput : Type 0 where
  pub display_name : Option String
  pub avatar_url : Option String

abbrev pub missing_user : String → Exception
missing_user id = not_found (String.◌++◌ "User with id " (String.◌++◌ id " not found."))

abbrev pub rethrow_missing_user : {A : Type 0} → String → Exception → Exec App A
rethrow_missing_user id (prisma_known code) =
    if code == "P2025" then throw (missing_user id) else throw (prisma_known code)
rethrow_missing_user id e = throw e

abbrev pub user_key : String → String
user_key id = String.◌++◌ "users:id:" id

abbrev pub is_super : User → Bool
is_super u = includes u.roles super_admin

module _ ⦃prisma : Prisma⦄ where
  module _ ⦃cache : CacheManager⦄ where
    abbrev load_all : ℕ → Option CacheValue → Exec App (List UserOutput)
    load_all now (some (user_outputs outs)) = pure outs
    load_all now _ = do
      rows ← find_many users (λ u. u.is_active)
      let result = map to_user_output rows
      cache_set "users:all" (user_outputs result) none now
      pure result

    unfoldable pub find_all : ℕ → Exec App (List UserOutput)
    find_all now = do cached ← cache_get "users:all" now; load_all now cached

    abbrev load_one : String → ℕ → Option CacheValue → Exec App UserOutput
    load_one id now (some (user_output out)) = pure out
    load_one id now _ = do
      found ← find_unique users (λ u. u.id == id)
      user ← require found (missing_user id)
      cache_set (user_key id) (user_output (to_user_output user)) none now
      pure (to_user_output user)

    unfoldable pub find_by_id : String → ℕ → Exec App UserOutput
    find_by_id id now = do cached ← cache_get (user_key id) now; load_one id now cached

  unfoldable pub find_by_email : ⦃env : Env⦄ → String → Exec App (Option User)
  find_by_email ⦃env⦄ email = find_unique users (λ u. u.email == env.to_lower_case email)

  abbrev pub profiled : UpdateUserInput → ℕ → User → User
  profiled dto now u = record u {
    display_name = or_else dto.display_name u.display_name;
    avatar_url = if is_some dto.avatar_url then dto.avatar_url else u.avatar_url;
    updated_at = now;
  }

  unfoldable pub update_user : String → UpdateUserInput → ℕ → Exec App UserOutput
  update_user id dto now = do
    updated ← catch (update users (λ u. u.id == id) (profiled dto now)) (rethrow_missing_user id)
    emit (user_updated id)
    pure (to_user_output updated)

  -- The last super admin keeps the role.
  abbrev pub reject_last : ℕ → Exec App (Unit {0})
  reject_last super_admins =
      if leb super_admins 1 then throw (conflict "Cannot remove the last super_admin.") else pure tt

  abbrev pub guard_last : User → Exec App (Unit {0})
  guard_last target =
      if is_super target then (count_rows users is_super >>= reject_last) else pure tt

  abbrev pub guard_target : String → Option User → Exec App (Unit {0})
  guard_target id none = throw (missing_user id)
  guard_target id (some target) = guard_last target

  unfoldable pub guard_demotion : String → List String → Exec App (Unit {0})
  guard_demotion id roles =
      if includes roles super_admin
      then pure tt
      else (find_unique users (λ u. u.id == id) >>= guard_target id)

  abbrev pub with_roles : List String → ℕ → User → User
  with_roles roles now u = record u { roles = roles; updated_at = now }

  unfoldable pub set_roles : String → List String → ℕ → Exec App UserOutput
  set_roles id roles now = do
    updated ←
        catch
          (prisma.transaction
            (guard_demotion id roles >> update users (λ u. u.id == id) (with_roles roles now)))
          (rethrow_missing_user id)
    emit (user_updated id)
    pure (to_user_output updated)

  unfoldable pub deactivate : String → ℕ → Exec App UserOutput
  deactivate id now = do
    updated ←
        catch
          (update users (λ u. u.id == id) (λ u. record u { is_active = false; updated_at = now }))
          (rethrow_missing_user id)
    emit (user_deactivated id)
    pure (to_user_output updated)
