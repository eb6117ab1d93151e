-- ===== src/Store.antt =====
-- `this.prisma.<table>.<operation>` as an action on the application's state, and the emitting of
-- events. The operations themselves are those of the Prisma client that is the instance argument.
pub mod Updates
use nest_nexus.Prelude.{ℕ, Bool, Option, List, ◌∷◌, [], ◌++◌}
use nest_nexus.Exec.{Result, ok, err, Exec}
use nest_nexus.Prisma.{Prisma, OrderBy}
use nest_nexus.Schema.{
  User, RefreshToken, OauthProvider, ApiKey, WebauthnCredential, Document, RelationTuple,
  user_clash, refresh_token_clash, oauth_provider_clash, api_key_clash, webauthn_credential_clash,
  document_clash, relation_tuple_clash, App, Event, Background, MagicLinkEmail,
}

-- One table: its rows in the state, and its unique constraints.
pub record Table (R : Type 0) : Type 0 where
  pub rows : App → List R
  pub write : App → List R → App
  pub clash : R → R → Bool

abbrev pub users : Table User
users = record { rows = λ s. s.users; write = λ s rs. record s { users = rs }; clash = user_clash }

abbrev pub refresh_tokens : Table RefreshToken
refresh_tokens = record {
  rows = λ s. s.refresh_tokens;
  write = λ s rs. record s { refresh_tokens = rs };
  clash = refresh_token_clash;
}

abbrev pub oauth_providers : Table OauthProvider
oauth_providers = record {
  rows = λ s. s.oauth_providers;
  write = λ s rs. record s { oauth_providers = rs };
  clash = oauth_provider_clash;
}

abbrev pub api_keys : Table ApiKey
api_keys = record {
  rows = λ s. s.api_keys;
  write = λ s rs. record s { api_keys = rs };
  clash = api_key_clash;
}

abbrev pub webauthn_credentials : Table WebauthnCredential
webauthn_credentials = record {
  rows = λ s. s.webauthn_credentials;
  write = λ s rs. record s { webauthn_credentials = rs };
  clash = webauthn_credential_clash;
}

abbrev pub documents : Table Document
documents = record {
  rows = λ s. s.documents;
  write = λ s rs. record s { documents = rs };
  clash = document_clash;
}

abbrev pub relation_tuples : Table RelationTuple
relation_tuples = record {
  rows = λ s. s.relation_tuples;
  write = λ s rs. record s { relation_tuples = rs };
  clash = relation_tuple_clash;
}

-- A write whose constraint fails leaves the state as it is.
abbrev pub store : {R : Type 0} → Table R → App → Result (List R) → Result (Unit {0}) × App
store t s (ok rs) = (ok tt, t.write s rs)
store t s (err e) = (err e, s)

abbrev pub store_count : {R : Type 0} → Table R → App → ℕ → Result (List R) → Result ℕ × App
store_count t s n (ok rs) = (ok n, t.write s rs)
store_count t s n (err e) = (err e, s)

abbrev pub store_row : {R : Type 0} → Table R → App → Result (R × List R) → Result R × App
store_row t s (ok (r, rs)) = (ok r, t.write s rs)
store_row t s (err e) = (err e, s)

module _ ⦃prisma : Prisma⦄ {R : Type 0} (t : Table R) where
  abbrev pub find_unique : (R → Bool) → Exec App (Option R)
  find_unique q s = (ok (prisma.find_unique q (t.rows s)), s)

  abbrev pub find_first : (R → Bool) → Exec App (Option R)
  find_first q s = (ok (prisma.find_first q (t.rows s)), s)

  abbrev pub find_many : (R → Bool) → Exec App (List R)
  find_many q s = (ok (prisma.find_many q (t.rows s)), s)

  -- `findMany` with `take` alone.
  abbrev pub find_take : (R → Bool) → ℕ → Exec App (List R)
  find_take q n s = (ok (prisma.page 0 n (prisma.find_many q (t.rows s))), s)

  -- `findMany` with `skip`, `take` and `orderBy`.
  abbrev pub find_page : ⦃order : OrderBy⦄ → (R → Bool) → (R → Option ℕ) → ℕ → ℕ → Exec App (List R)
  find_page ⦃order⦄ q key skip n s =
      (ok (prisma.page skip n (order.order_by_desc key (prisma.find_many q (t.rows s)))), s)

  abbrev pub count_rows : (R → Bool) → Exec App ℕ
  count_rows q s = (ok (prisma.count_rows q (t.rows s)), s)

  abbrev pub create : R → Exec App (Unit {0})
  create r s = store t s (prisma.create t.clash r (t.rows s))

  -- Returns the changed row.
  abbrev pub update : (R → Bool) → (R → R) → Exec App R
  update q f s = store_row t s (prisma.update t.clash q f (t.rows s))

  abbrev pub upsert : (R → Bool) → R → (R → R) → Exec App (Unit {0})
  upsert q r f s = store t s (prisma.upsert t.clash q r f (t.rows s))

  abbrev pub update_many : (R → Bool) → (R → R) → Exec App (Unit {0})
  update_many q f s = (ok tt, t.write s (prisma.update_many q f (t.rows s)))

  abbrev pub delete : (R → Bool) → Exec App (Unit {0})
  delete q s = store t s (prisma.delete q (t.rows s))

  -- With the number of rows deleted.
  abbrev pub delete_many : (R → Bool) → Exec App ℕ
  delete_many q s =
      store_count t s (prisma.count_rows q (t.rows s)) (prisma.delete_many q (t.rows s))

abbrev pub emit : Event → Exec App (Unit {0})
emit e s = (ok tt, record s { events = s.events ++ e ∷ [] })

-- Starts a call and goes on at once.
abbrev pub start : Background → Exec App (Unit {0})
start task s = (ok tt, record s { background = s.background ++ task ∷ [] })

abbrev pub enqueue : MagicLinkEmail → Exec App (Unit {0})
enqueue job s = (ok tt, record s { email_jobs = s.email_jobs ++ job ∷ [] })
