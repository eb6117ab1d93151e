-- ===== src/Document/Removal.antt =====
-- src/modules/document/document.service.ts: removals, and the reading after a share.
use nest_nexus.Prelude.{
  ◌≤◌, arith, String, ◌≡◌, refl, sym, ap, ◌∙◌, ◌⊎◌, inl, inr, Bool, true, not, ◌&&◌, none, some, [],
  ◌∷◌, ◌++◌, ◌==◌, string_eq, eq_iff, find, filter, Has, head, Bool-cases, Option-cases, find-some,
  map_if, map_if-same, any, Has-right,
}
use nest_nexus.Exec.{Result, ok, err, failed}
use nest_nexus.Prisma.{
  p1001, deleted, OutageLaws, Prisma, PrismaLaws, list_prisma, list_prisma_laws, by_lists,
}
use nest_nexus.Enums.{Relation, owner, editor, viewer, relation_eq, document_read}
use nest_nexus.Schema.{Document, RelationTuple, relation_tuple_clash, App}
use nest_nexus.Authorization.Policies.{AuthSubject}
use nest_nexus.Authorization.Relations.{is_tuple, grant}
use nest_nexus.Authorization.Decision.{has_permission, as_resource}
use nest_nexus.Authorization.Related.{strength}
use nest_nexus.Authorization.Rules.{Allowed, by_relation}
use nest_nexus.Document.{ShareDocumentDto, to_output, missing_document, find_one, remove, share}
use nest_nexus.Document.Grants.{new_tuple, is_tuple-eq}
use nest_nexus.Document.Reads.{find_one-reads}

abbrev pub of_document : String → RelationTuple → Bool
of_document id t = t.object_type == "document" && t.object_id == id

-- The state without a document and its tuples.
abbrev pub without : String → App → App
without id s = record s {
  documents = filter (λ d. not (d.id == id)) s.documents;
  relation_tuples = filter (λ t. not (of_document id t)) s.relation_tuples;
}

-- What a share leaves, when it returns.
share-inversion :
    (id : String) (dto : ShareDocumentDto) (s t : App)
    → share id dto s ≡ (ok tt, t)
    → (d : Document) × (find (λ d. d.id == id) s.documents ≡ some d)
      × (grant dto.subject_id dto.relation "document" id s ≡ (ok tt, t))
unfolding share
share-inversion id dto s t h = elim (Bool-cases (dto.relation == owner)) [
  | inl refused ↦ failed (rw refused at h)
  | inr allowed ↦ elim (Option-cases (find (λ d. d.id == id) s.documents)) [
    | inl missing ↦ failed (rw missing at (rw allowed at h))
    | inr (d, found) ↦ elim (Option-cases (find (λ u. u.id == dto.subject_id) s.users)) [
      | inl nobody ↦ failed (rw nobody at (rw found at (rw allowed at h)))
      | inr (u, known) ↦ (d, found, rw known at (rw found at (rw allowed at h)))
    ]
  ]
]

-- The tuple that a grant makes sure of.
grant-tuple :
    (sub : String) (r : Relation) (id : String) (s t : App)
    → grant sub r "document" id s ≡ (ok tt, t)
    → Has (new_tuple sub r "document" id) t.relation_tuples × (t.documents ≡ s.documents)
unfolding grant
grant-tuple sub r id s t h =
    elim (Option-cases (find (is_tuple sub r "document" id) s.relation_tuples)) [
      | inl absent ↦ elim (Bool-cases (any (relation_tuple_clash new) s.relation_tuples)) [
        | inl taken ↦ failed (rw taken at (rw absent at h))
        | inr free ↦ appended (rw free at (rw absent at h))
      ]
      | inr (u, found) ↦
          elim (Bool-cases (
            any (λ o. not (is_tuple sub r "document" id o) && relation_tuple_clash u o)
              s.relation_tuples)) [
                | inl taken ↦ failed (rw taken at (rw found at h))
                | inr free ↦ kept u found (rw free at (rw found at h))
              ]
    ]
  where
    new : RelationTuple
    new = new_tuple sub r "document" id

    appended :
        ◌≡◌ {A = Result (Unit {0}) × App}
          (ok tt, record s { relation_tuples = s.relation_tuples ++ new ∷ [] })
          (ok tt, t)
        → Has new t.relation_tuples × (t.documents ≡ s.documents)
    appended e = (
      rw (ap (λ (o : Result (Unit {0}) × App). o.1.relation_tuples) (sym e))
          (Has-right s.relation_tuples head),
      ap (λ (o : Result (Unit {0}) × App). o.1.documents) (sym e),
    )

    kept :
        (u : RelationTuple)
        → find (is_tuple sub r "document" id) s.relation_tuples ≡ some u
        → ◌≡◌ {A = Result (Unit {0}) × App}
            (
              ok tt,
              record s {
                relation_tuples = map_if (is_tuple sub r "document" id) (λ x. x) s.relation_tuples;
              },
            )
            (ok tt, t)
        → Has new t.relation_tuples × (t.documents ≡ s.documents)
    kept u found e =
        let (place, passes) = find-some (is_tuple sub r "document" id) s.relation_tuples found in
        let same : u ≡ new = is_tuple-eq sub r "document" id u passes in
        let rows =
          ap (λ (o : Result (Unit {0}) × App). o.1.relation_tuples) (sym e)
          ∙ map_if-same (is_tuple sub r "document" id) s.relation_tuples in
        (rw rows (rw (← same) place), ap (λ (o : Result (Unit {0}) × App). o.1.documents) (sym e))

shared_read :
    (id : String) (dto : ShareDocumentDto) (s t : App) (user : AuthSubject)
    → share id dto s ≡ (ok tt, t)
    → user.sub ≡ dto.subject_id
    → has_permission (some user) document_read ≡ true
    → (d : Document) × Has d t.documents × (d.id ≡ id) × ((find_one user id t).0 ≡ ok (to_output d))
shared_read id dto s t user h same scoped =
    let (d, found, granted) = share-inversion id dto s t h in
    let (place, docs) = grant-tuple dto.subject_id dto.relation id s t granted in
    let (stored, hit) = find-some (λ d. d.id == id) s.documents found in
    let named : d.id ≡ id = (eq_iff d.id id).0 hit in
    let rule : Allowed t user document_read (as_resource d) = by_relation viewer refl scoped (
      new_tuple dto.subject_id dto.relation "document" id,
      place,
      refl,
      sym same,
      refl,
      sym named,
      weakest dto.relation,
    ) in
    elim (find_one-reads list_prisma_laws user id t) [
      | inl (e, (at_id, allowed), answer) ↦ (
        d,
        rw docs stored,
        named,
        answer
            ∙ ap (λ x. ok (to_output x))
                (some_inj (sym at_id ∙ ap (find (λ d. d.id == id)) docs ∙ found)),
      )
      | inr (never, answer) ↦ absurd (never d (ap (find (λ d. d.id == id)) docs ∙ found, rule))
    ]
  where
    some_inj : {a b : Document} → some a ≡ some b → a ≡ b
    some_inj e = cc

    weakest : (r : Relation) → 1 ≤ strength r
    weakest owner = omega arith
    weakest editor = omega arith
    weakest viewer = omega arith

module _ ⦃prisma : Prisma⦄ where
  -- The database went away under one of the two deletions.
  abbrev pub IsOutage : String → App → Type 0
  IsOutage id s =
      (prisma.delete (λ (d : Document). d.id == id) s.documents ≡ err p1001)
      ⊎ (prisma.delete_many (of_document id) s.relation_tuples ≡ err p1001)

  -- The three ends of a removal.
  abbrev pub AllOrNothing : String → App → Type 0
  AllOrNothing id s =
      ((find (λ d. d.id == id) s.documents ≡ none)
        × (remove ⦃prisma = prisma⦄ id s ≡ (err (missing_document id), s)))
      ⊎ (((d : Document) × (find (λ d. d.id == id) s.documents ≡ some d)
            × (remove ⦃prisma = prisma⦄ id s ≡ (ok tt, without id s)))
          ⊎ (IsOutage id s × (remove ⦃prisma = prisma⦄ id s ≡ (err p1001, s))))

  removed_row :
      (laws : OutageLaws prisma) (id : String) (s : App)
      → prisma.delete (λ (d : Document). d.id == id) s.documents
        ≡ deleted (λ d. d.id == id) s.documents (find (λ d. d.id == id) s.documents)
      → AllOrNothing id s
  unfolding remove
  removed_row laws id s row = elim (Option-cases (find (λ d. d.id == id) s.documents)) [
    | inl missing ↦ inl (missing, rw (laws.rollback_lem) (rw row (rw missing refl)))
    | inr (d, found) ↦ elim (laws.delete_many_cases (of_document id) s.relation_tuples) [
      | inl tuples ↦
          inr (inl (d, found, rw (laws.rollback_lem) (rw row (rw found (rw tuples refl)))))
      | inr down ↦ inr (inr (inr down, rw (laws.rollback_lem) (rw row (rw found (rw down refl)))))
    ]
  ]

  -- A removal is all or nothing, even if the database may go away between its two deletions. Without
  -- such a document it is a 404 and changes nothing, unless the database went away. Otherwise it
  -- takes away just the documents with the id and the tuples on it, and leaves all else as it was;
  -- or the database went away, the removal throws that, and nothing is changed.
  pub remove-whole : (laws : OutageLaws prisma) (id : String) (s : App) → AllOrNothing id s
  unfolding remove
  remove-whole laws id s = elim (laws.delete_cases (λ (d : Document). d.id == id) s.documents) [
    | inl row ↦ removed_row laws id s row
    | inr down ↦ inr (inr (inl down, rw (laws.rollback_lem) (rw down refl)))
  ]

module _ {prisma : Prisma} (laws : PrismaLaws prisma) where
  -- After a share that returned, the subject, with the scope to read documents, reads the document.
  pub share-find_one :
      (id : String) (dto : ShareDocumentDto) (s t : App) (user : AuthSubject)
      → share ⦃prisma = prisma⦄ id dto s ≡ (ok tt, t)
      → user.sub ≡ dto.subject_id
      → has_permission (some user) document_read ≡ true
      → (d : Document) × Has d t.documents
        × (d.id ≡ id)
        × ((find_one ⦃prisma = prisma⦄ user id t).0 ≡ ok (to_output d))
  share-find_one = rw (by_lists laws) shared_read
