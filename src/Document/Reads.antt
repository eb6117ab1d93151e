-- ===== src/Document/Reads.antt =====
-- The read routes: one document, and the pages of the list.
use nest_nexus.Prelude.{
  String, ◌≡◌, ◌⊎◌, sym, ap, inl, inr, ◌∙◌, Bool, true, false, Option, none, some, ◌==◌, string_eq,
  if◌then◌else◌, find, Option-cases,
}
use nest_nexus.Exec.{Result, ok, err}
use nest_nexus.Prisma.{Prisma, PrismaLaws, list_prisma, by_lists}
use nest_nexus.Enums.{document_read}
use nest_nexus.Schema.{Document, App}
use nest_nexus.Authorization.Policies.{AuthSubject}
use nest_nexus.Authorization.Decision.{as_resource, can}
use nest_nexus.Authorization.Settles.{can-Settles}
use nest_nexus.Authorization.Rules.{Allowed}
use nest_nexus.Authorization.Table.{can_iff_lists}
use nest_nexus.Document.{to_output, missing_document, find_one}

-- The stored document under an id, if the user may read it.
abbrev pub IsReadable : App → AuthSubject → String → Document → Type 0
IsReadable s user id d =
    (find (λ d. d.id == id) s.documents ≡ some d) × Allowed s user document_read (as_resource d)

abbrev found_at : String → App → Option Document
found_at id s = find (λ d. d.id == id) s.documents

-- What a read answers, from the row that is found and the decision on it.
find_one_missing :
    (user : AuthSubject) (id : String) (s : App)
    → found_at id s ≡ none
    → find_one user id s ≡ (err (missing_document id), s)
unfolding find_one
find_one_missing user id s h = rw h

find_one_found :
    (user : AuthSubject) (id : String) (s : App) (d : Document) (b : Bool)
    → found_at id s ≡ some d
    → can (some user) document_read (as_resource d) s ≡ (ok b, s)
    → find_one user id s ≡ (if b then ok (to_output d) else err (missing_document id), s)
unfolding find_one
find_one_found user id s d true h e = rw h (rw e)
find_one_found user id s d false h e = rw h (rw e)

abbrev answer : {A : Type 0} → Result A × App → Result A
answer r = r.0

some_inj : (a b : Document) → some a ≡ some b → a ≡ b
some_inj a b h = cc

hidden :
    {user : AuthSubject} (id : String) {s : App} (d : Document)
    → found_at id s ≡ some d
    → can (some user) document_read (as_resource d) s ≡ (ok false, s)
    → (other : Document) → ¬ IsReadable s user id other
hidden {user} id {s} d found e other (same, allowed) = cc (
  some_inj other d (sym same ∙ found),
  (can_iff_lists user document_read (as_resource other) s).1 allowed,
  ap answer e,
)

Outcome : App → AuthSubject → String → Type 0
Outcome s user id =
    ((d : Document) × IsReadable s user id d × ((find_one user id s).0 ≡ ok (to_output d)))
    ⊎ ((((d : Document) → ¬ IsReadable s user id d)
        × ((find_one user id s).0 ≡ err (missing_document id))))

find_one_cases : (user : AuthSubject) (id : String) (s : App) → Outcome s user id
unfolding Outcome
find_one_cases user id s = elim (Option-cases (found_at id s)) [
  | inl missing ↦ inr (λ d r. cc (r.0), ap answer (find_one_missing user id s missing))
  | inr (d, found) ↦ by_decision d found ((can-Settles user document_read (as_resource d)).at s)
]
  where
    by_decision :
        (d : Document)
        → found_at id s ≡ some d
        → (b : Bool) × (can (some user) document_read (as_resource d) s ≡ (ok b, s))
        → Outcome s user id
    by_decision d found (true, e) = inl (
      d,
      (found, (can_iff_lists user document_read (as_resource d) s).0 (ap answer e)),
      ap answer (find_one_found user id s d true found e),
    )
    by_decision d found (false, e) =
        inr (hidden id d found e, ap answer (find_one_found user id s d false found e))

module _ {prisma : Prisma} (laws : PrismaLaws prisma) where
  -- A single read answers with the document exactly when it is stored under the id and one of the
  -- rules lets the user read it; in every other case it answers with the same 404, so a document
  -- that is forbidden cannot be told from one that does not exist.
  pub find_one-reads :
      (user : AuthSubject) (id : String) (s : App)
      → ((d : Document) × IsReadable s user id d
          × ((find_one ⦃prisma = prisma⦄ user id s).0 ≡ ok (to_output d)))
        ⊎ (((d : Document) → ¬ IsReadable s user id d)
            × ((find_one ⦃prisma = prisma⦄ user id s).0 ≡ err (missing_document id)))
  find_one-reads = rw (by_lists laws) (unfold Outcome in find_one_cases)
