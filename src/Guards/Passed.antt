-- ===== src/Guards/Passed.antt =====
-- src/common/guards: what holds when a guard has let a request pass.
use nest_nexus.Prelude.{
  String, ◌≡◌, ◌⊎◌, refl, sym, ap, ◌∙◌, inl, inr, arith, Bool, true, false, Option, some, List, [],
  ◌∷◌, ◌==◌, string_eq, eq_iff, truthy, all, find, Bool-cases, Option-cases,
}
use nest_nexus.Exec.{Result, ok, failed, unless, pure, ◌>>◌, forbidden}
use nest_nexus.Prisma.{list_prisma}
use nest_nexus.Enums.{Permission, Relation}
use nest_nexus.Schema.{Document, App}
use nest_nexus.Authorization.Policies.{AuthSubject, evaluate_policy}
use nest_nexus.Authorization.Relations.{check}
use nest_nexus.Authorization.Decision.{is_super_admin, has_permission}
use nest_nexus.Authorization.Related.{IsRelated, check-IsRelated}
use nest_nexus.Guards.{
  permissions_guard, relation_guard, policy_guard, passes_policy, resource_type,
}

pub permissions_guard-ok :
    (required : List Permission) (user : Option AuthSubject) (s t : App) (b : Bool)
    → permissions_guard required user s ≡ (ok b, t)
    → (all (has_permission user) required ≡ true) × (t ≡ s)
unfolding permissions_guard
permissions_guard-ok [] user s t b h = (refl, sym (ap (λ (o : Result Bool × App). o.1) h))
permissions_guard-ok (p ∷ ps) user s t b h =
    elim (Bool-cases (all (has_permission user) (p ∷ ps))) [
      | inl held ↦ (held, sym (ap (λ (o : Result Bool × App). o.1) (rw held at h)))
      | inr lacks ↦ failed (rw lacks at h)
    ]

-- A super admin, or someone with the relation or a stronger one.
abbrev pub IsEntitled : App → AuthSubject → Relation → String → Type 0
IsEntitled s user required id =
    (is_super_admin (some user) ≡ true) ⊎ IsRelated s user.sub required id

check_reads :
    (sub : String) (required : Relation) (id : String) (s : App)
    → (held : Bool) × (check sub required "document" id s ≡ (ok held, s))
unfolding check
check_reads sub required id s = (_, refl)

after_unless :
    (held : Bool) (s t : App) (b : Bool)
    → (unless held (forbidden "Relationship requirement not met.") >> pure true) s ≡ (ok b, t)
    → (held ≡ true) × (t ≡ s)
after_unless true s t b h = (refl, sym (ap (λ (o : Result Bool × App). o.1) h))
after_unless false s t b h = failed h

pub relation_guard-ok :
    (required : Relation) (user : AuthSubject) (id : String) (s t : App) (b : Bool)
    → relation_guard (some (required, "document")) user (some id) s ≡ (ok b, t)
    → IsEntitled s user required id × (t ≡ s)
unfolding relation_guard
relation_guard-ok required user id s t b h = elim (Bool-cases (is_super_admin (some user))) [
  | inl super ↦ (inl super, sym (ap (λ (o : Result Bool × App). o.1) (rw super at h)))
  | inr plain ↦ elim (Bool-cases (truthy (some id))) [
    | inr empty ↦ failed (rw empty at (rw plain at h))
    | inl given ↦
        let (held, reads) = check_reads user.sub required id s in
        let (holds, same) = after_unless held s t b (rw reads at (rw given at (rw plain at h))) in
        (
          inr (
              check-IsRelated user.sub required id s
                (ap (λ (o : Result Bool × App). o.0) reads ∙ ap ok holds)),
          same,
        )
  ]
]

-- The document is there, and its attributes alone let the user read it.
abbrev pub IsVisible : AuthSubject → Document → Type 0
IsVisible user d =
    ((d.visibility ≡ "public") ⊎ (d.visibility ≡ "internal")) ⊎ (d.owner_id ≡ user.sub)

passes-IsVisible :
    (user : AuthSubject) (d : Document)
    → passes_policy "document.read" user (some d) ≡ true
    → IsVisible user d
unfolding evaluate_policy
passes-IsVisible user d h = ground (
  arith,
  eq_iff d.visibility "public",
  eq_iff d.visibility "internal",
  eq_iff d.owner_id user.sub,
)

pub policy_guard-ok :
    (user : AuthSubject) (id : String) (s t : App) (b : Bool)
    → policy_guard (some "document.read") user (some id) s ≡ (ok b, t)
    → ((is_super_admin (some user) ≡ true)
        ⊎ ((d : Document) × (find (λ d. d.id == id) s.documents ≡ some d) × IsVisible user d))
      × (t ≡ s)
unfolding policy_guard resource_type
policy_guard-ok user id s t b h = elim (Bool-cases (is_super_admin (some user))) [
  | inl super ↦ (inl super, sym (ap (λ (o : Result Bool × App). o.1) (rw super at h)))
  | inr plain ↦ elim (Bool-cases (truthy (some id))) [
    | inr empty ↦ failed (rw empty at (rw plain at h))
    | inl given ↦ elim (Option-cases (find (λ d. d.id == id) s.documents)) [
      | inl missing ↦ failed (rw missing at (rw given at (rw plain at h)))
      | inr (d, found) ↦ elim (Bool-cases (passes_policy "document.read" user (some d))) [
        | inr hidden ↦ failed (rw hidden at (rw found at (rw given at (rw plain at h))))
        | inl shown ↦ (
          inr (d, found, passes-IsVisible user d shown),
          sym (
              ap (λ (o : Result Bool × App). o.1)
                (rw shown at (rw found at (rw given at (rw plain at h))))),
        )
      ]
    ]
  ]
]
