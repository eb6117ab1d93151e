-- ===== src/Document/Tests.antt =====
-- The document service on a sample state.
use nest_nexus.Prelude.{
  inl, inr, ℕ, true, string_eq, none, some, List, [], ◌∷◌, ◌≡◌, ◌⊎◌, refl, ◌≤◌, arith, length, Has,
  head, later,
}
use nest_nexus.Exec.{ok, err}
use nest_nexus.Prisma.{Prisma, p1001, OutageLaws, list_prisma, list_prisma_laws}
use nest_nexus.Enums.{document_read, viewer, owner}
use nest_nexus.Schema.{Document, App}
use nest_nexus.Samples.{
  stored_order, stored_order_laws, ada_subject, own_document, document_of, sample,
}
use nest_nexus.Authorization.Rbac.{role_permissions}
use nest_nexus.Authorization.Policies.{evaluate_policy}
use nest_nexus.Authorization.Relations.{grant, check, object_ids_for}
use nest_nexus.Authorization.Decision.{as_resource, has_permission, can, readable_document_where}
use nest_nexus.Document.{
  CreateDocumentInput, PaginationQuery, ShareDocumentDto, DocumentOutput, to_output,
  missing_document, create_document, find_all, find_one, remove, share,
}
use nest_nexus.Document.Removal.{AllOrNothing, remove-whole, share-find_one}
use nest_nexus.Document.Reads.{IsReadable, find_one-reads}
use nest_nexus.Document.Pages.{find_all-readable, find_all-reaches}
use nest_nexus.Document.Owners.{OwnersMatch}
use nest_nexus.Document.Ownership.{shares, creates, here, next, Reach-only_owner}

find_one-reads_example :
    ((d : Document) × IsReadable sample ada_subject "d1" d
      × ((find_one ada_subject "d1" sample).0 ≡ ok (to_output d)))
    ⊎ (((d : Document) → ¬ IsReadable sample ada_subject "d1" d)
        × ((find_one ada_subject "d1" sample).0 ≡ err (missing_document "d1")))
find_one-reads_example = find_one-reads list_prisma_laws ada_subject "d1" sample

abbrev first_page : PaginationQuery
first_page = record { skip = 0; take = 2 }

abbrev ada_page : List DocumentOutput
ada_page = to_output own_document ∷ to_output (document_of "d2" "root" "private") ∷ []

ada_lists : (find_all ada_subject first_page sample).0 ≡ ok ada_page
unfolding find_all readable_document_where has_permission role_permissions object_ids_for
ada_lists = refl

find_all-readable_example :
    (length ada_page ≤ 2)
    × ((out : DocumentOutput)
        → Has out ada_page
        → (d : Document) × Has d sample.documents
          × (out ≡ to_output d)
          × ((can (some ada_subject) document_read (as_resource d) sample).0 ≡ ok true))
find_all-readable_example =
    find_all-readable list_prisma_laws stored_order_laws ada_subject first_page sample ada_page
      ada_lists

ada_reads :
    (can
      (some ada_subject)
      document_read
      (as_resource (document_of "d2" "root" "private"))
      sample).0
    ≡ ok true
unfolding can has_permission role_permissions evaluate_policy check
ada_reads = refl

find_all-reaches_example :
    (skip : ℕ) × (outs : List DocumentOutput) × ((find_all ada_subject
        (record { skip = skip; take = 1 })
        sample).0
      ≡ ok outs)
    × Has (to_output (document_of "d2" "root" "private")) outs
find_all-reaches_example =
    find_all-reaches list_prisma_laws stored_order_laws ada_subject 1 sample
      (document_of "d2" "root" "private") (omega arith) (later head) ada_reads

-- Ada writes a document and shares it; she is its owner.
abbrev notes : CreateDocumentInput
notes = record { title = "notes"; body = "text"; visibility = none }

abbrev viewer_root : ShareDocumentDto
viewer_root = record { subject_id = "root"; relation = viewer }

abbrev after_share : App
after_share = (share "d9" viewer_root (create_document ada_subject notes "d9" 5 sample).1).1

ada_owns : (check "ada" owner "document" "d9" after_share).0 ≡ ok true
unfolding check grant share create_document
ada_owns = refl

owners : OwnersMatch sample
owners t head x y = (own_document, head, refl, refl)
owners t (later head) x y = cc
owners t (later (later h)) x y = elim h [ ]

Reach-only_owner_example :
    (d : Document) × Has d after_share.documents × (d.id ≡ "d9") × (d.owner_id ≡ "ada")
Reach-only_owner_example =
    Reach-only_owner list_prisma_laws sample after_share "ada" "d9" owners
      (next (next here (creates ada_subject notes "d9" 5)) (shares "d9" viewer_root)) ada_owns

-- A database that goes away after the document was deleted, before its tuples are.
abbrev flaky : Prisma
flaky = record list_prisma { delete_many = λ q rows. err p1001 }

flaky_laws : OutageLaws flaky
flaky_laws = record {
  delete_cases = λ q rows. inl refl;
  delete_many_cases = λ q rows. inr refl;
  rollback_lem = λ m s. refl;
}

remove-whole_example : AllOrNothing ⦃prisma = flaky⦄ "d1" sample
remove-whole_example = remove-whole ⦃prisma = flaky⦄ flaky_laws "d1" sample

rolls_back : remove ⦃prisma = flaky⦄ "d1" sample ≡ (err p1001, sample)
unfolding remove
rolls_back = refl

-- The owner of the third document shares it with ada.
abbrev viewer_ada : ShareDocumentDto
viewer_ada = record { subject_id = "ada"; relation = viewer }

abbrev opened : App
opened = (share "d3" viewer_ada sample).1

shares_it : share "d3" viewer_ada sample ≡ (ok tt, opened)
unfolding share grant
shares_it = refl

scoped : has_permission (some ada_subject) document_read ≡ true
unfolding has_permission role_permissions
scoped = refl

share-find_one_example :
    (d : Document) × Has d opened.documents
    × (d.id ≡ "d3")
    × ((find_one ada_subject "d3" opened).0 ≡ ok (to_output d))
share-find_one_example =
    share-find_one list_prisma_laws "d3" viewer_ada sample opened ada_subject shares_it refl scoped
