-- ===== src/Document/Owners.antt =====
-- What each call of src/modules/document/document.service.ts does to the owner tuples.
use nest_nexus.Prelude.{
  ℕ, String, ◌≡◌, ◌⊎◌, refl, sym, ap, ◌∙◌, inl, inr, Bool, true, false, not, ◌&&◌, some, List, [],
  ◌∷◌, ◌++◌, arith, ◌==◌, string_eq, eq_iff, any, is_some, count, nat_eq, find, filter, map_if, Has,
  head, Has-append, Has-left, Has-right, Has-one, Has-filter, filter-Has, Has-map_if, Bool-cases,
  Option-cases,
}
use nest_nexus.Exec.{Result, ok, err, Exec, forbidden}
use nest_nexus.Prisma.{list_prisma}
use nest_nexus.Enums.{Relation, owner, relation_eq}
use nest_nexus.Schema.{Document, document_clash, RelationTuple, App}
use nest_nexus.Authorization.Policies.{AuthSubject}
use nest_nexus.Authorization.Relations.{revoke, is_tuple}
use nest_nexus.Authorization.Decision.{is_super_admin}
use nest_nexus.Document.{
  CreateDocumentInput, UpdateDocumentInput, ShareDocumentDto, create_document, update_document,
  remove, share, unshare, missing_document, check_visibility_change, new_document, patched,
}
use nest_nexus.Document.Grants.{new_tuple, grant_lem}

abbrev pub IsOwned : List Document → RelationTuple → Type 0
IsOwned ds t = (d : Document) × Has d ds × (d.id ≡ t.object_id) × (d.owner_id ≡ t.subject_id)

-- Every owner tuple of a document names the owner that the document's row names.
abbrev pub OwnersMatch : App → Type 0
OwnersMatch s =
    (t : RelationTuple)
    → Has t s.relation_tuples
    → t.object_type ≡ "document"
    → t.relation ≡ owner
    → IsOwned s.documents t

pub IsOwned-append :
    (ds es : List Document) (t : RelationTuple) → IsOwned ds t → IsOwned (ds ++ es) t
IsOwned-append ds es t (d, place, e, f) = (d, Has-left es place, e, f)

-- A grant keeps the invariant if its own tuple is in order.
pub after_grant :
    (sub : String) (r : Relation) (id : String) (s t : App)
    → OwnersMatch s
    → (r ≡ owner → IsOwned s.documents (new_tuple sub r "document" id))
    → (t ≡ s)
      ⊎ (t ≡ record s { relation_tuples = s.relation_tuples ++ new_tuple sub r "document" id ∷ [] })
    → OwnersMatch t
after_grant sub r id s t inv mine (inl same) = rw same inv
after_grant sub r id s t inv mine (inr added) = rw added after
  where
    after :
        OwnersMatch
          (record s { relation_tuples = s.relation_tuples ++ new_tuple sub r "document" id ∷ [] })
    after u place type is_owner = elim (Has-append s.relation_tuples place) [
      | inl old ↦ inv u old type is_owner
      | inr fresh ↦
          let same : u ≡ new_tuple sub r "document" id = Has-one fresh in
          rw same (mine (sym (ap (λ (v : RelationTuple). v.relation) same) ∙ is_owner))
    ]

pub creates-OwnersMatch :
    (user : AuthSubject) (dto : CreateDocumentInput) (id : String) (now : ℕ) (s : App)
    → OwnersMatch s
    → OwnersMatch (create_document user dto id now s).1
unfolding create_document
creates-OwnersMatch user dto id now s inv =
    elim (Bool-cases (any (document_clash (new_document user dto id now)) s.documents)) [
      | inl taken ↦ rw taken inv
      | inr free ↦
          let made : App = record s {
            documents = s.documents ++ new_document user dto id now ∷ [];
          } in
          let (t, e, from) = grant_lem user.sub owner "document" id made in
          rw free (
            rw e (
              after_grant user.sub owner id made t
                (λ u place type is_owner.
                  IsOwned-append s.documents _ u (inv u place type is_owner))
                (λ _. (new_document user dto id now, Has-right s.documents head, refl, refl)) from))
    ]

pub Reads : {A : Type 0} → Exec App A → App → Type 0
Reads {A} m s = (r : Result A) × (m s ≡ (r, s))

pub visibility-Reads :
    (user : AuthSubject) (id : String) (dto : UpdateDocumentInput) (s : App)
    → Reads (check_visibility_change user id dto) s
unfolding Reads
visibility-Reads user id dto s =
    elim (Bool-cases (is_some dto.visibility && not (is_super_admin (some user)))) [
      | inr free ↦ (ok tt, rw free)
      | inl checked ↦ elim (Option-cases (find (λ d. d.id == id) s.documents)) [
        | inl missing ↦ (err (missing_document id), rw checked (rw missing))
        | inr (d, found) ↦ elim (Bool-cases (d.owner_id == user.sub)) [
          | inl own ↦ (ok tt, rw checked (rw found (rw own)))
          | inr foreign ↦ (
            err (forbidden "Only the owner can change a document’s visibility."),
            rw checked (rw found (rw foreign)),
          )
        ]
      ]
    ]

pub patched-OwnersMatch :
    (id : String) (dto : UpdateDocumentInput) (now : ℕ) (s : App)
    → OwnersMatch s
    → OwnersMatch (record s { documents = map_if (λ d. d.id == id) (patched dto now) s.documents })
patched-OwnersMatch id dto now s inv t place type is_owner =
    let (d, stored, e, f) = inv t place type is_owner in
    let (d', stored', from) = Has-map_if (λ d. d.id == id) (patched dto now) stored in
    elim from [
      | inl same ↦ (d', stored', rw same e, rw same f)
      | inr same ↦ (d', stored', rw same e, rw same f)
    ]

pub updates-OwnersMatch :
    (user : AuthSubject) (id : String) (dto : UpdateDocumentInput) (now : ℕ) (s : App)
    → OwnersMatch s
    → OwnersMatch (update_document user id dto now s).1
unfolding update_document Reads
updates-OwnersMatch user id dto now s inv = after_check (visibility-Reads user id dto s)
  where
    after_check :
        (r : Result (Unit {0})) × (check_visibility_change user id dto s ≡ (r, s))
        → OwnersMatch (update_document user id dto now s).1
    after_check (err e, checked) = rw checked inv
    after_check (ok _, checked) = elim (Option-cases (find (λ d. d.id == id) s.documents)) [
      | inl missing ↦ rw checked (rw missing inv)
      | inr (d, found) ↦
          elim (Bool-cases
            (any (λ e. not (e.id == id) && document_clash (patched dto now d) e) s.documents)) [
              | inl taken ↦ rw checked (rw found (rw taken inv))
              | inr free ↦ rw checked (rw found (rw free (patched-OwnersMatch id dto now s inv)))
            ]
    ]

pub not-and : (a b : Bool) → not (a && b) ≡ true → a ≡ true → b ≡ false
not-and a b h e = ground arith

pub without-OwnersMatch :
    (id : String) (s : App)
    → OwnersMatch s
    → OwnersMatch (record s {
      documents = filter (λ d. not (d.id == id)) s.documents;
      relation_tuples =
          filter (λ t. not (t.object_type == "document" && t.object_id == id)) s.relation_tuples;
    })
without-OwnersMatch id s inv t place type is_owner =
    let (old, kept) =
      Has-filter (λ u. not (u.object_type == "document" && u.object_id == id)) s.relation_tuples
        place in
    let (d, stored, e, f) = inv t old type is_owner in
    let other : (t.object_id == id) ≡ false = not-and _ _ kept ((eq_iff _ _).1 type) in
    (d, filter-Has (λ d. not (d.id == id)) stored (rw e (rw other)), e, f)

pub removes-OwnersMatch : (id : String) (s : App) → OwnersMatch s → OwnersMatch (remove id s).1
unfolding remove
removes-OwnersMatch id s inv = elim (Option-cases (find (λ d. d.id == id) s.documents)) [
  | inl missing ↦ rw missing inv
  | inr (d, found) ↦ rw found (without-OwnersMatch id s inv)
]

pub shares-OwnersMatch :
    (id : String) (dto : ShareDocumentDto) (s : App)
    → OwnersMatch s
    → OwnersMatch (share id dto s).1
unfolding share
shares-OwnersMatch id dto s inv = elim (Bool-cases (dto.relation == owner)) [
  | inl refused ↦ rw refused inv
  | inr allowed ↦ elim (Option-cases (find (λ d. d.id == id) s.documents)) [
    | inl missing ↦ rw allowed (rw missing inv)
    | inr (d, found) ↦ elim (Option-cases (find (λ u. u.id == dto.subject_id) s.users)) [
      | inl unknown ↦ rw allowed (rw found (rw unknown inv))
      | inr (u, known) ↦
          let (t, e, from) = grant_lem dto.subject_id dto.relation "document" id s in
          rw allowed (
            rw found (
              rw known (
                rw e (
                  after_grant dto.subject_id dto.relation id s t inv
                    (λ same. cc (allowed, (relation_eq.beq_iff dto.relation owner).1 same)) from))))
    ]
  ]
]

pub revoked-OwnersMatch :
    (q : RelationTuple → Bool) (s : App)
    → OwnersMatch s
    → OwnersMatch (record s { relation_tuples = filter (λ t. not (q t)) s.relation_tuples })
revoked-OwnersMatch q s inv t place type is_owner =
    inv t (Has-filter (λ t. not (q t)) s.relation_tuples place).0 type is_owner

pub unshares-OwnersMatch :
    (id : String) (dto : ShareDocumentDto) (s : App)
    → OwnersMatch s
    → OwnersMatch (unshare id dto s).1
unfolding unshare revoke
unshares-OwnersMatch id dto s inv = elim (Bool-cases (dto.relation == owner)) [
  | inl refused ↦ rw refused inv
  | inr allowed ↦
      elim (Bool-cases
        (count (is_tuple dto.subject_id dto.relation "document" id) s.relation_tuples == 0)) [
          | inl nothing ↦ rw allowed (rw nothing (revoked-OwnersMatch _ s inv))
          | inr some_ ↦ rw allowed (rw some_ (revoked-OwnersMatch _ s inv))
        ]
]
