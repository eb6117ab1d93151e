-- ===== src/Users/Changes.antt =====
-- src/modules/users/users.service.ts: what each operation leaves in the table of users.
use nest_nexus.Prelude.{
  ℕ, ◌≤◌, String, ◌≡◌, ◌⊎◌, refl, sym, ap, ◌∙◌, inl, inr, arith, Bool, true, false, not, ◌&&◌, some,
  List, [], ◌∷◌, ◌++◌, ◌==◌, string_eq, any, leb, includes, find, count, map_if, Bool-cases,
  Option-cases,
}
use nest_nexus.Exec
use nest_nexus.Exec.{Result, Exception, prisma_known, http, other, conflict, ok, err}
use nest_nexus.Prisma.{list_prisma, updated, p2002, p2025}
use nest_nexus.Enums.{super_admin}
use nest_nexus.Schema.{User, UserOutput, user_updated, user_deactivated, user_clash, App}
use nest_nexus.Users.{
  UpdateUserInput, rethrow_missing_user, is_super, guard_demotion, with_roles, profiled,
  missing_user, set_roles, update_user, deactivate,
}

abbrev pub inactive : ℕ → User → User
inactive now u = record u { is_active = false; updated_at = now }

abbrev pub named : String → User → Bool
named id u = u.id == id

module _ (id : String) (now : ℕ) (s : App) where
  abbrev pub clashes : (User → User) → User → Bool
  clashes f u = any (λ v. not (named id v) && user_clash (f u) v) s.users

  pub rethrow-throws :
      (e : Exception) (t : App)
      → (e' : Exception) × (rethrow_missing_user {A = User} id e t ≡ (err e', t))
  rethrow-throws (http status message) t = (http status message, refl)
  rethrow-throws (other message) t = (other message, refl)
  rethrow-throws (prisma_known code) t = elim (Bool-cases (code == "P2025")) [
    | inl missing ↦ (missing_user id, rw missing refl)
    | inr another ↦ (prisma_known code, rw another refl)
  ]

  -- Why the roles may be written: the role is kept, or it is not there, or another user has it.
  abbrev pub IsAllowed : List String → Type 0
  IsAllowed roles =
      (includes roles super_admin ≡ true)
      ⊎ ((u : User)
          → find (named id) s.users ≡ some u
          → (is_super u ≡ false) ⊎ (2 ≤ count is_super s.users))

  pub guard-cases :
      (roles : List String)
      → ((e : Exception) × (guard_demotion id roles s ≡ (err e, s)))
        ⊎ ((guard_demotion id roles s ≡ (ok tt, s)) × IsAllowed roles)
  unfolding guard_demotion
  guard-cases roles = elim (Bool-cases (includes roles super_admin)) [
    | inl keeps ↦ inr (rw keeps refl, inl keeps)
    | inr demotes ↦ elim (Option-cases (find (named id) s.users)) [
      | inl missing ↦ inl (missing_user id, rw (demotes, missing) refl)
      | inr (u, found) ↦ elim (Bool-cases (is_super u)) [
        | inr ordinary ↦ inr (
          rw (demotes, found, ordinary) refl,
          inr (λ v same. inl (rw (← some_inj (sym found ∙ same)) ordinary)),
        )
        | inl super ↦ elim (Bool-cases (leb (count is_super s.users) 1)) [
          | inl last ↦ inl (
            conflict "Cannot remove the last super_admin.",
            rw (demotes, found, super, last) refl,
          )
          | inr others ↦
              inr (rw (demotes, found, super, others) refl, inr (λ v same. inr (ground arith)))
        ]
      ]
    ]
  ]
    where
      some_inj : {a b : User} → some a ≡ some b → a ≡ b
      some_inj h = cc

  pub updated-cases :
      (f : User → User)
      → ((e : Exception) × (updated user_clash (named id) f s.users (find (named id) s.users)
            ≡ err e))
        ⊎ ((u : User) × (find (named id) s.users ≡ some u)
            × (updated user_clash (named id) f s.users (find (named id) s.users)
                ≡ ok (f u, map_if (named id) f s.users)))
  updated-cases f = elim (Option-cases (find (named id) s.users)) [
    | inl missing ↦ inl (p2025, rw missing refl)
    | inr (u, found) ↦ elim (Bool-cases (clashes f u)) [
      | inl taken ↦ inl (p2002, rw (found, taken) refl)
      | inr free ↦ inr (u, found, rw (found, free) refl)
    ]
  ]

  -- What `set_roles` leaves in the table, and what it had to know for it.
  pub set_roles-users :
      (roles : List String)
      → ((set_roles id roles now s).1.users ≡ s.users)
        ⊎ ((u : User) × (find (named id) s.users ≡ some u)
            × ((set_roles id roles now s).1.users
                ≡ map_if (named id) (with_roles roles now) s.users)
            × IsAllowed roles)
  unfolding set_roles
  set_roles-users roles = elim (guard-cases roles) [
    | inl (e, refused) ↦ let (e', thrown) = rethrow-throws e s in inl (rw (refused, thrown) refl)
    | inr (passed, why) ↦ elim (updated-cases (with_roles roles now)) [
      | inl (e, failed) ↦
          let (e', thrown) = rethrow-throws e s in inl (rw (passed, failed, thrown) refl)
      | inr (u, found, done) ↦ inr (u, found, rw (passed, done) refl, why)
    ]
  ]

  pub update_user-users :
      (dto : UpdateUserInput)
      → ((update_user id dto now s).1.users ≡ s.users)
        ⊎ ((update_user id dto now s).1.users ≡ map_if (named id) (profiled dto now) s.users)
  unfolding update_user
  update_user-users dto = elim (updated-cases (profiled dto now)) [
    | inl (e, failed) ↦ let (e', thrown) = rethrow-throws e s in inl (rw (failed, thrown) refl)
    | inr (u, found, done) ↦ inr (rw done refl)
  ]

  pub deactivate-users :
      ((deactivate id now s).1.users ≡ s.users)
      ⊎ ((deactivate id now s).1.users ≡ map_if (named id) (inactive now) s.users)
  unfolding deactivate
  deactivate-users = elim (updated-cases (inactive now)) [
    | inl (e, failed) ↦ let (e', thrown) = rethrow-throws e s in inl (rw (failed, thrown) refl)
    | inr (u, found, done) ↦ inr (rw done refl)
  ]

  -- A change of roles that answered.
  pub set_roles-ok :
      (roles : List String) (out : UserOutput) (t : App)
      → set_roles id roles now s ≡ (ok out, t)
      → (u : User) × (find (named id) s.users ≡ some u)
        × (t ≡ record s {
          users = map_if (named id) (with_roles roles now) s.users;
          events = s.events ++ user_updated id ∷ [];
        })
  unfolding set_roles
  set_roles-ok roles out t h = elim (guard-cases roles) [
    | inl (e, refused) ↦
        let (e', thrown) = rethrow-throws e s in Exec.failed (rw thrown at (rw refused at h))
    | inr (passed, why) ↦ elim (updated-cases (with_roles roles now)) [
      | inl (e, failed) ↦
          let (e', thrown) = rethrow-throws e s in
          Exec.failed (rw thrown at (rw failed at (rw passed at h)))
      | inr (u, found, done) ↦
          (u, found, sym (ap (λ (o : Result UserOutput × App). o.1) (rw done at (rw passed at h))))
    ]
  ]

  -- A deactivation that answered.
  pub deactivate-ok :
      (out : UserOutput) (t : App)
      → deactivate id now s ≡ (ok out, t)
      → (u : User) × (find (named id) s.users ≡ some u)
        × (t ≡ record s {
          users = map_if (named id) (inactive now) s.users;
          events = s.events ++ user_deactivated id ∷ [];
        })
  unfolding deactivate
  deactivate-ok out t h = elim (updated-cases (inactive now)) [
    | inl (e, failed) ↦
        let (e', thrown) = rethrow-throws e s in Exec.failed (rw thrown at (rw failed at h))
    | inr (u, found, done) ↦
        (u, found, sym (ap (λ (o : Result UserOutput × App). o.1) (rw done at h)))
  ]
