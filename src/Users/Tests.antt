-- ===== src/Users/Tests.antt =====
-- The users service on a sample state.
use nest_nexus.Prelude.{
  ◌≤◌, arith, String, ◌≡◌, refl, inl, inr, Bool-cases, eq_iff, true, false, [], ◌∷◌, any, count,
  ◌==◌, string_eq,
}
use nest_nexus.Prisma.{list_prisma, list_prisma_laws}
use nest_nexus.Enums.{super_admin, user_role}
use nest_nexus.Schema.{App}
use nest_nexus.Samples.{sample}
use nest_nexus.Users.{is_super, set_roles, deactivate}
use nest_nexus.Users.SuperAdmins.{
  sets_roles, deactivates, here, next, IsGoverned, Reach-super_admin,
}
use nest_nexus.Users.Changes.{named}

governed : IsGoverned sample.users
governed = (one, omega arith)
  where
    distinct : (id : String) → "ada" ≡ id → ("root" == id) ≡ false
    distinct id same = rw (← same) refl

    one : (id : String) → count (named id) sample.users ≤ 1
    one id = elim (Bool-cases ("ada" == id)) [
      | inl is_ada ↦
          let other = distinct id ((eq_iff "ada" id).0 is_ada) in rw (is_ada, other) (omega arith)
      | inr not_ada ↦ rw not_ada (ground arith)
    ]

-- Ada is promoted, root is demoted, and ada is deactivated; her demotion then fails.
abbrev promoted : App
promoted = (set_roles "ada" (super_admin ∷ []) 1 sample).1

abbrev demoted : App
demoted = (set_roles "root" (user_role ∷ []) 2 promoted).1

Reach-super_admin_example : any is_super (deactivate "ada" 3 demoted).1.users ≡ true
Reach-super_admin_example =
    Reach-super_admin list_prisma_laws sample (deactivate "ada" 3 demoted).1 governed (
      next
        (next (next here (sets_roles "ada" (super_admin ∷ []) 1))
          (sets_roles "root" (user_role ∷ []) 2))
        (deactivates "ada" 3))
