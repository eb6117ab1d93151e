-- ===== src/Prisma.antt =====
-- The Prisma client that the services call, which is not part of the repository: its operations on
-- one table are a parameter, and `PrismaLaws` states what the code relies on, as the client's
-- documentation has it. A table's contents are the list of its rows; a `where` clause is the test
-- that it makes of a row, and the unique constraints of prisma/schema.prisma are a test of two rows.
use nest_nexus.Prelude.{
  ℕ, ◌≡◌, ◌⊎◌, refl, Bool, not, ◌&&◌, Option, none, some, List, [], ◌∷◌, ◌++◌, if◌then◌else◌, any,
  filter, find, count, map_if, take, drop, Has, ◌↔◌,
}
use nest_nexus.Exec.{Exception, prisma_known, Result, ok, err, Exec}

pub record Prisma : Type 1 where
  pub find_unique : {R : Type 0} → (R → Bool) → List R → Option R
  pub find_first : {R : Type 0} → (R → Bool) → List R → Option R
  pub find_many : {R : Type 0} → (R → Bool) → List R → List R
  pub page : {R : Type 0} → ℕ → ℕ → List R → List R
  pub count_rows : {R : Type 0} → (R → Bool) → List R → ℕ
  pub create : {R : Type 0} → (R → R → Bool) → R → List R → Result (List R)
  pub update : {R : Type 0} → (R → R → Bool) → (R → Bool) → (R → R) → List R → Result (R × List R)
  pub upsert : {R : Type 0} → (R → R → Bool) → (R → Bool) → R → (R → R) → List R → Result (List R)
  pub update_many : {R : Type 0} → (R → Bool) → (R → R) → List R → List R
  pub delete : {R : Type 0} → (R → Bool) → List R → Result (List R)
  pub delete_many : {R : Type 0} → (R → Bool) → List R → Result (List R)
  pub transaction : {S A : Type 0} → Exec S A → Exec S A

-- A violated unique constraint is P2002, a row that is not there P2025.
abbrev pub p2002 : Exception
p2002 = prisma_known "P2002"

abbrev pub p2025 : Exception
p2025 = prisma_known "P2025"

module _ {R : Type 0} where
  abbrev pub created : (R → R → Bool) → R → List R → Result (List R)
  created clash r rows = if any (clash r) rows then err p2002 else ok (rows ++ r ∷ [])

  -- With the changed row.
  abbrev pub updated :
      (R → R → Bool) → (R → Bool) → (R → R) → List R → Option R → Result (R × List R)
  updated clash q f rows none = err p2025
  updated clash q f rows (some r) =
      if any (λ s. not (q s) && clash (f r) s) rows then err p2002 else ok (f r, map_if q f rows)

  abbrev pub drop_row : Result (R × List R) → Result (List R)
  drop_row (ok (r, rows)) = ok rows
  drop_row (err e) = err e

  -- Creates the row unless one is there, which is changed then.
  abbrev pub upserted :
      (R → R → Bool) → (R → Bool) → R → (R → R) → List R → Option R → Result (List R)
  upserted clash q r f rows none = created clash r rows
  upserted clash q r f rows (some found) = drop_row (updated clash q f rows (some found))

  abbrev pub deleted : (R → Bool) → List R → Option R → Result (List R)
  deleted q rows none = err p2025
  deleted q rows (some r) = ok (filter (λ s. not (q s)) rows)

-- A database that cannot be reached.
abbrev pub p1001 : Exception
p1001 = prisma_known "P1001"

-- All or nothing: an exception rolls the writes back.
abbrev pub rolled_back : {S A : Type 0} → S → Result A × S → Result A × S
rolled_back s (ok a, s') = (ok a, s')
rolled_back s (err e, s') = (err e, s)

pub record PrismaLaws (p : Prisma) : Type 1 where
  pub find_unique_lem :
      {R : Type 0} (q : R → Bool) (rows : List R) → p.find_unique q rows ≡ find q rows
  pub find_first_lem :
      {R : Type 0} (q : R → Bool) (rows : List R) → p.find_first q rows ≡ find q rows
  pub find_many_lem :
      {R : Type 0} (q : R → Bool) (rows : List R) → p.find_many q rows ≡ filter q rows
  pub page_lem :
      {R : Type 0} (skip n : ℕ) (rows : List R) → p.page skip n rows ≡ take n (drop skip rows)
  pub count_rows_lem :
      {R : Type 0} (q : R → Bool) (rows : List R) → p.count_rows q rows ≡ count q rows
  pub create_lem :
      {R : Type 0} (clash : R → R → Bool) (r : R) (rows : List R)
      → p.create clash r rows ≡ created clash r rows
  pub update_lem :
      {R : Type 0} (clash : R → R → Bool) (q : R → Bool) (f : R → R) (rows : List R)
      → p.update clash q f rows ≡ updated clash q f rows (find q rows)
  pub upsert_lem :
      {R : Type 0} (clash : R → R → Bool) (q : R → Bool) (r : R) (f : R → R) (rows : List R)
      → p.upsert clash q r f rows ≡ upserted clash q r f rows (find q rows)
  pub update_many_lem :
      {R : Type 0} (q : R → Bool) (f : R → R) (rows : List R)
      → p.update_many q f rows ≡ map_if q f rows
  pub delete_lem :
      {R : Type 0} (q : R → Bool) (rows : List R) → p.delete q rows ≡ deleted q rows (find q rows)
  pub delete_many_lem :
      {R : Type 0} (q : R → Bool) (rows : List R)
      → p.delete_many q rows ≡ ok (filter (λ r. not (q r)) rows)
  pub transaction_lem :
      {S A : Type 0} (m : Exec S A) (s : S) → p.transaction m s ≡ rolled_back s (m s)

-- A client whose database may go away at any time: what it deletes it deletes as above, or it throws
-- P1001; a transaction is rolled back all the same.
pub record OutageLaws (p : Prisma) : Type 1 where
  pub delete_cases :
      {R : Type 0} (q : R → Bool) (rows : List R)
      → (p.delete q rows ≡ deleted q rows (find q rows)) ⊎ (p.delete q rows ≡ err p1001)
  pub delete_many_cases :
      {R : Type 0} (q : R → Bool) (rows : List R)
      → (p.delete_many q rows ≡ ok (filter (λ r. not (q r)) rows))
        ⊎ (p.delete_many q rows ≡ err p1001)
  pub rollback_lem : {S A : Type 0} (m : Exec S A) (s : S) → p.transaction m s ≡ rolled_back s (m s)

-- A client that meets the laws, by lists.
instance abbrev pub list_prisma : Prisma
list_prisma = record {
  find_unique = find;
  find_first = find;
  find_many = filter;
  page = λ skip n rows. take n (drop skip rows);
  count_rows = count;
  create = created;
  update = λ clash q f rows. updated clash q f rows (find q rows);
  upsert = λ clash q r f rows. upserted clash q r f rows (find q rows);
  update_many = map_if;
  delete = λ q rows. deleted q rows (find q rows);
  delete_many = λ q rows. ok (filter (λ r. not (q r)) rows);
  transaction = λ m s. rolled_back s (m s);
}

pub list_prisma_laws : PrismaLaws list_prisma
list_prisma_laws = record {
  find_unique_lem = λ q rows. refl;
  find_first_lem = λ q rows. refl;
  find_many_lem = λ q rows. refl;
  page_lem = λ skip n rows. refl;
  count_rows_lem = λ q rows. refl;
  create_lem = λ clash r rows. refl;
  update_lem = λ clash q f rows. refl;
  upsert_lem = λ clash q r f rows. refl;
  update_many_lem = λ q f rows. refl;
  delete_lem = λ q rows. refl;
  delete_many_lem = λ q rows. refl;
  transaction_lem = λ m s. refl;
}

-- The laws determine the client, so a property is proved for lists and holds for every client.
pub by_lists : {p : Prisma} → PrismaLaws p → p ≡ list_prisma
by_lists l = λ i. record {
  find_unique = λ q rows. l.find_unique_lem q rows i;
  find_first = λ q rows. l.find_first_lem q rows i;
  find_many = λ q rows. l.find_many_lem q rows i;
  page = λ skip n rows. l.page_lem skip n rows i;
  count_rows = λ q rows. l.count_rows_lem q rows i;
  create = λ clash r rows. l.create_lem clash r rows i;
  update = λ clash q f rows. l.update_lem clash q f rows i;
  upsert = λ clash q r f rows. l.upsert_lem clash q r f rows i;
  update_many = λ q f rows. l.update_many_lem q f rows i;
  delete = λ q rows. l.delete_lem q rows i;
  delete_many = λ q rows. l.delete_many_lem q rows i;
  transaction = λ m s. l.transaction_lem m s i;
}

-- `orderBy: { <column>: 'desc' }`: the rows of a result in another order.
pub record OrderBy : Type 1 where
  pub order_by_desc : {R : Type 0} → (R → Option ℕ) → List R → List R

pub record OrderByLaws (o : OrderBy) : Type 1 where
  pub order_by_desc-Has :
      {R : Type 0} (key : R → Option ℕ) (r : R) (rows : List R)
      → Has r (o.order_by_desc key rows) ↔ Has r rows
