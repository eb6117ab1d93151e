-- ===== src/Users/SuperAdmins.antt =====
-- src/modules/users/users.service.ts: who has the role of super admin.
use nest_nexus.Prelude.{
  ℕ, ◌≤◌, arith, String, ◌≡◌, refl, ap, inl, inr, Bool, true, some, List, [], ◌∷◌, ◌==◌, string_eq,
  any, find, count, map_if, Bool-cases,
}
use nest_nexus.Prisma.{Prisma, PrismaLaws, list_prisma, by_lists}
use nest_nexus.Schema.{User, App}
use nest_nexus.Users.{
  UpdateUserInput, is_super, with_roles, profiled, set_roles, update_user, deactivate,
}
use nest_nexus.Users.Counts.{count-map_if-le, count-and-le, count-same, count-unlike, count-changed}
use nest_nexus.Users.Changes.{
  inactive, named, IsAllowed, set_roles-users, update_user-users, deactivate-users,
}

-- A call of the service that writes, whether it returns or throws.
pub data Step (prisma : Prisma) (s : App) : App → Type 0 where
  sets_roles :
      (id : String) (roles : List String) (now : ℕ)
      → Step prisma s (set_roles ⦃prisma = prisma⦄ id roles now s).1
  updates :
      (id : String) (dto : UpdateUserInput) (now : ℕ)
      → Step prisma s (update_user ⦃prisma = prisma⦄ id dto now s).1
  deactivates : (id : String) (now : ℕ) → Step prisma s (deactivate ⦃prisma = prisma⦄ id now s).1

pub data Reach (prisma : Prisma) (s : App) : App → Type 0 where
  here : Reach prisma s s
  next : {t u : App} → Reach prisma s t → Step prisma t u → Reach prisma s u

-- An id stands at one user at most, and some user is a super admin.
abbrev pub IsGoverned : List User → Type 0
IsGoverned us = ((id : String) → count (named id) us ≤ 1) × (1 ≤ count is_super us)

renamed-IsGoverned :
    (id : String) (f : User → User)
    → ((u : User) → (f u).id ≡ u.id)
    → ((u : User) → is_super (f u) ≡ is_super u)
    → (us : List User) → IsGoverned us
    → IsGoverned (map_if (named id) f us)
renamed-IsGoverned id f ids roles us (keys, some_super) = (
  λ j. rw (count-same (named j) (named id) f (λ u. ap (λ i. i == j) (ids u)) us) (keys j),
  rw (count-same is_super (named id) f roles us) some_super,
)

set_roles-IsGoverned :
    (id : String) (roles : List String) (now : ℕ) (s : App)
    → IsGoverned s.users
    → IsGoverned (set_roles id roles now s).1.users
set_roles-IsGoverned id roles now s governed = elim (set_roles-users id now s roles) [
  | inl same ↦ rw same governed
  | inr (u, found, changed, why) ↦ rw changed (
    λ j.
        rw (count-same (named j) (named id) (with_roles roles now) (λ v. refl) s.users)
          (governed.0 j),
    remaining u found why,
  )
]
  where
    remaining :
        (u : User)
        → find (named id) s.users ≡ some u
        → IsAllowed id now s roles
        → 1 ≤ count is_super (map_if (named id) (with_roles roles now) s.users)
    remaining u found (inl keeps) =
        count-changed is_super (named id) (with_roles roles now) s.users found keeps
    remaining u found (inr others) =
        let kept = count-map_if-le is_super (named id) (with_roles roles now) s.users in
        elim (others u found) [
          | inl ordinary ↦
              let none_lost =
                count-unlike is_super (named id) (with_roles roles now) s.users found ordinary
                  (governed.0 id) in
              let some_super = governed.1 in omega arith
          | inr two ↦
              let lost = count-and-le is_super (named id) (with_roles roles now) s.users in
              let one = governed.0 id in omega arith
        ]

Step-IsGoverned : {s t : App} → Step list_prisma s t → IsGoverned s.users → IsGoverned t.users
Step-IsGoverned {s} (sets_roles id roles now) governed =
    set_roles-IsGoverned id roles now s governed
Step-IsGoverned {s} (updates id dto now) governed = elim (update_user-users id now s dto) [
  | inl same ↦ rw same governed
  | inr changed ↦
      rw changed (renamed-IsGoverned id (profiled dto now) (λ u. refl) (λ u. refl) s.users governed)
]
Step-IsGoverned {s} (deactivates id now) governed = elim (deactivate-users id now s) [
  | inl same ↦ rw same governed
  | inr changed ↦
      rw changed (renamed-IsGoverned id (inactive now) (λ u. refl) (λ u. refl) s.users governed)
]

Reach-IsGoverned : {s t : App} → Reach list_prisma s t → IsGoverned s.users → IsGoverned t.users
Reach-IsGoverned here governed = governed
Reach-IsGoverned (next run step) governed = Step-IsGoverned step (Reach-IsGoverned run governed)

reached_super :
    (s t : App) → IsGoverned s.users → Reach list_prisma s t → any is_super t.users ≡ true
reached_super s t governed run = count-any is_super t.users (Reach-IsGoverned run governed).1
  where
    count-any : (p : User → Bool) (us : List User) → 1 ≤ count p us → any p us ≡ true
    count-any p [] h = absurd (omega arith)
    count-any p (u ∷ us) h = elim (Bool-cases (p u)) [
      | inl hit ↦ rw hit refl
      | inr miss ↦ let ih = count-any p us (ground arith) in ground arith
    ]

module _ {prisma : Prisma} (laws : PrismaLaws prisma) where
  -- From a table in which ids are unique and some user has the super admin role, whatever calls that
  -- set roles, change profiles or deactivate users are made, failing ones included, some user in the
  -- table has the role; the user may be deactivated.
  pub Reach-super_admin :
      (s t : App) → IsGoverned s.users → Reach prisma s t → any is_super t.users ≡ true
  Reach-super_admin = rw (by_lists laws) reached_super
