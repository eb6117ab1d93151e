-- ===== src/Document/Pages.antt =====
-- The list route: what is on its pages.
use nest_nexus.Prelude.{
  ℕ, ◌≤◌, ◌<◌, ◌≡◌, ◌||◌, sym, ap, inl, inr, ◌∙◌, true, Option, none, some, List, [], map, arith,
  string_eq, filter, take, drop, length, Has, Bool-cases, Has-filter, filter-Has, Has-take,
  Has-drop, Has-page, Has-map, map-Has, length-map, length-take-le,
}
use nest_nexus.Exec.{ok_inj, ok}
use nest_nexus.Prisma.{Prisma, PrismaLaws, list_prisma, by_lists, OrderBy, OrderByLaws}
use nest_nexus.Enums.{viewer, relation_eq, document_read, document_read_any}
use nest_nexus.Authorization.Relations.{grants, object_ids_for}
use nest_nexus.Schema.{Document, App}
use nest_nexus.Authorization.Policies.{AuthSubject}
use nest_nexus.Authorization.Decision.{
  as_resource, can, readable_document_where, DocumentWhere, readable_clauses, any_of, document_type,
  everything, matches, is_super_admin, has_permission,
}
use nest_nexus.Authorization.Readable.{on_lists}
use nest_nexus.Document.{PaginationQuery, DocumentOutput, to_output, find_all}

-- The filter is computed without a write or a throw.
filter_of :
    (user : AuthSubject) (s : App)
    → (o : Option DocumentWhere) × (readable_document_where (some user) s ≡ (ok o, s))
unfolding readable_document_where object_ids_for
filter_of user s = elim (Bool-cases (has_permission (some user) document_read)) [
  | inr closed ↦ (none, rw closed)
  | inl scoped ↦
      elim (Bool-cases
        (is_super_admin (some user) || has_permission (some user) document_read_any)) [
          | inl wide ↦ (some everything, rw (scoped, wide))
          | inr narrow ↦ (
            some (
                any_of (
                  readable_clauses user (
                    map (λ t. t.object_id)
                      (filter (grants user.sub viewer document_type) s.relation_tuples)))),
            rw (scoped, narrow),
          )
        ]
]

module _ ⦃order : OrderBy⦄ (sorts : OrderByLaws order) where
  -- The rows of one page.
  page_rows : PaginationQuery → DocumentWhere → App → List Document
  page_rows query w s = take query.take (
      drop query.skip
        (order.order_by_desc (λ d. some d.created_at) (filter (matches w) s.documents)))

  Has-page_rows :
      (query : PaginationQuery) (w : DocumentWhere) (s : App) (d : Document)
      → Has d (page_rows query w s)
      → Has d s.documents × (matches w d ≡ true)
  unfolding page_rows
  Has-page_rows query w s d h =
      Has-filter (matches w) s.documents
        ((sorts.order_by_desc-Has _ d _).0 (Has-drop query.skip _ (Has-take query.take _ h)))

  page_rows-Has :
      (n : ℕ) (w : DocumentWhere) (s : App) (d : Document)
      → 0 < n
      → Has d s.documents
      → matches w d ≡ true
      → (skip : ℕ) × Has d (page_rows (record { skip = skip; take = n }) w s)
  unfolding page_rows
  page_rows-Has n w s d positive place passes = Has-page n positive (
      (sorts.order_by_desc-Has (λ d. some d.created_at) d _).1
        (filter-Has (matches w) place passes))

  page_of : PaginationQuery → Option DocumentWhere → App → List DocumentOutput
  page_of query none s = []
  page_of query (some w) s = map to_output (page_rows query w s)

  page_of_bound :
      (query : PaginationQuery) (o : Option DocumentWhere) (s : App)
      → length (page_of query o s) ≤ query.take
  unfolding page_of page_rows
  page_of_bound query none s = omega arith
  page_of_bound query (some w) s = rw length-map (length-take-le query.take _)

  find_all_page :
      (user : AuthSubject) (query : PaginationQuery) (s : App) (o : Option DocumentWhere)
      → readable_document_where (some user) s ≡ (ok o, s)
      → (find_all user query s).0 ≡ ok (page_of query o s)
  unfolding find_all page_of page_rows
  find_all_page user query s none e = rw e
  find_all_page user query s (some w) e = rw e

  matches-can :
      (user : AuthSubject) (s : App) (w : DocumentWhere) (d : Document)
      → readable_document_where (some user) s ≡ (ok (some w), s)
      → (can (some user) document_read (as_resource d) s).0 ≡ ok (matches w d)
  matches-can user s w d e = rw e at (on_lists (some user) d s)

  IsListed : AuthSubject → App → DocumentOutput → Type 0
  IsListed user s out =
      (d : Document) × Has d s.documents
      × (out ≡ to_output d)
      × ((can (some user) document_read (as_resource d) s).0 ≡ ok true)

  page-IsListed :
      (user : AuthSubject) (query : PaginationQuery) (s : App) (o : Option DocumentWhere)
      → readable_document_where (some user) s ≡ (ok o, s)
      → (out : DocumentOutput) → Has out (page_of query o s)
      → IsListed user s out
  unfolding page_of IsListed
  page-IsListed user query s none e out h = elim h [ ]
  page-IsListed user query s (some w) e out h =
      let (d, on_page, same) = Has-map to_output _ h in
      let (place, passes) = Has-page_rows query w s d on_page in
      (d, place, same, matches-can user s w d e ∙ ap ok passes)

  page_entries :
      (user : AuthSubject) (query : PaginationQuery) (s : App) (outs : List DocumentOutput)
      → (find_all user query s).0 ≡ ok outs
      → (out : DocumentOutput) → Has out outs
      → IsListed user s out
  page_entries user query s outs h out place =
      let (o, e) = filter_of user s in
      let same : outs ≡ page_of query o s = ok_inj (sym h ∙ find_all_page user query s o e) in
      page-IsListed user query s o e out (rw same at place)

  all_reached :
      (user : AuthSubject) (n : ℕ) (s : App) (d : Document)
      → 0 < n
      → Has d s.documents
      → (can (some user) document_read (as_resource d) s).0 ≡ ok true
      → (skip : ℕ) × (outs : List DocumentOutput) × ((find_all user
            (record { skip = skip; take = n })
            s).0
          ≡ ok outs)
        × Has (to_output d) outs
  unfolding page_of
  all_reached user n s d positive place allowed = by_filter (filter_of user s)
    where
      by_filter :
          ((o : Option DocumentWhere) × (readable_document_where (some user) s ≡ (ok o, s)))
          → (skip : ℕ) × (outs : List DocumentOutput) × ((find_all user
                (record { skip = skip; take = n })
                s).0
              ≡ ok outs)
            × Has (to_output d) outs
      by_filter (none, e) = cc (rw e at (on_lists (some user) d s), allowed)
      by_filter (some w, e) =
          let passes = ok_inj (sym (matches-can user s w d e) ∙ allowed) in
          let (skip, on_page) = page_rows-Has n w s d positive place passes in
          (
            skip,
            _,
            find_all_page user (record { skip = skip; take = n }) s (some w) e,
            map-Has to_output on_page,
          )

  page_bound :
      (user : AuthSubject) (query : PaginationQuery) (s : App) (outs : List DocumentOutput)
      → (find_all user query s).0 ≡ ok outs
      → length outs ≤ query.take
  page_bound user query s outs h =
      let (o, e) = filter_of user s in
      rw (ok_inj (sym h ∙ find_all_page user query s o e)) (page_of_bound query o s)

module _ {prisma : Prisma} (laws : PrismaLaws prisma) {order : OrderBy}
    (sorts : OrderByLaws order) where
  -- A page of the list holds at most `take` documents, and each is a stored document that the single
  -- read decision allows the user to read.
  pub find_all-readable :
      (user : AuthSubject) (query : PaginationQuery) (s : App) (outs : List DocumentOutput)
      → (find_all ⦃prisma = prisma⦄ ⦃order = order⦄ user query s).0 ≡ ok outs
      → (length outs ≤ query.take)
        × ((out : DocumentOutput)
            → Has out outs
            → (d : Document) × Has d s.documents
              × (out ≡ to_output d)
              × ((can ⦃prisma = prisma⦄ (some user) document_read (as_resource d) s).0 ≡ ok true))
  find_all-readable = rw (by_lists laws) (
      unfold IsListed in
      λ user query s outs h. (
        page_bound ⦃order = order⦄ sorts user query s outs h,
        page_entries ⦃order = order⦄ sorts user query s outs h,
      ))

  -- Every stored document that the user may read is on a page of the list, for every positive page
  -- size: the filter runs before the pagination.
  pub find_all-reaches :
      (user : AuthSubject) (n : ℕ) (s : App) (d : Document)
      → 0 < n
      → Has d s.documents
      → (can ⦃prisma = prisma⦄ (some user) document_read (as_resource d) s).0 ≡ ok true
      → (skip : ℕ) × (outs : List DocumentOutput) × ((find_all ⦃prisma = prisma⦄ ⦃order = order⦄
            user
            (record { skip = skip; take = n })
            s).0
          ≡ ok outs)
        × Has (to_output d) outs
  find_all-reaches = rw (by_lists laws) (all_reached ⦃order = order⦄ sorts)
