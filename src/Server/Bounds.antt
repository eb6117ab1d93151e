-- ===== src/Server/Bounds.antt =====
-- The list of the documents, behind the validation of its query.
use nest_nexus.Prelude.{ℕ, ◌≤◌, arith, ◌≡◌, ap, true, some, List, length}
use nest_nexus.Exec.{Result, ok, bind-ok, ok_inj}
use nest_nexus.Prisma.{Prisma, PrismaLaws, OrderBy, OrderByLaws}
use nest_nexus.Schema.{App}
use nest_nexus.Env.{JwtPayload, Env}
use nest_nexus.Cache.{CacheManager}
use nest_nexus.Crypto.{Cipher}
use nest_nexus.Guards.{subject_of}
use nest_nexus.Auth.TwoFactor.{Totp}
use nest_nexus.Auth.Webauthn.{Ceremony}
use nest_nexus.Document.{PaginationQuery, DocumentOutput, find_all}
use nest_nexus.Document.Pages.{find_all-readable}
use nest_nexus.Http.{Request, Drawn, Body, Exchange, on_app, on_app-ok}
use nest_nexus.Http
use nest_nexus.Controllers.Documents
use nest_nexus.Controllers.Documents.{get_documents}
use nest_nexus.Validation.{documents_valid}
use nest_nexus.Server.{documents, is_valid, run, serve}
use nest_nexus.Server.Pending.{serve-guarded}
use nest_nexus.Server.Privileges.{documents_protected}

listed_of : Body → List DocumentOutput → List DocumentOutput
listed_of (Http.documents outs) other = outs
listed_of _ other = other

module _ {prisma : Prisma} (laws : PrismaLaws prisma) ⦃env : Env⦄ ⦃cache : CacheManager⦄
    ⦃cipher : Cipher⦄ ⦃totp : Totp⦄ ⦃ceremony : Ceremony⦄ {order : OrderBy}
    (sorts : OrderByLaws order) where
  within :
      (query : PaginationQuery)
      → is_valid (documents (get_documents query)) ≡ true
      → (1 ≤ query.take) × (query.take ≤ 100)
  unfolding is_valid documents_valid
  within query h = (ground arith, ground arith)

  listed :
      (query : PaginationQuery) (user : JwtPayload) (req : Request) (drawn : Drawn cipher.Byte)
      (now : ℕ) (x y : Exchange) (outs : List DocumentOutput)
      → run ⦃prisma = prisma⦄ ⦃order = order⦄
          (documents (get_documents query))
          (some user)
          req
          drawn
          now
          x
        ≡ (ok (Http.documents outs), y)
      → length outs ≤ query.take
  unfolding run Documents.run listed_of
  listed query user req drawn now x y outs h =
      let all_of = find_all ⦃prisma = prisma⦄ ⦃order = order⦄ (subject_of user) query in
      let (found, x1, ran, end) = bind-ok (on_app all_of) _ x h in
      let (t, done, _) = on_app-ok all_of x x1 found ran in
      let answered : (all_of x.server.app).0 ≡ ok found =
        ap (λ (o : Result (List DocumentOutput) × App). o.0) done in
      let same : found ≡ outs =
        ap (λ b. listed_of b outs) (ok_inj (ap (λ (o : Result Body × Exchange). o.0) end)) in
      rw (← same)
        (find_all-readable laws sorts (subject_of user) query x.server.app found answered).0

  -- Whatever page of the documents is asked for, a list that is answered has at most a hundred of
  -- them, and at most as many as were asked for, of which there was at least one.
  pub serve-bounded :
      (query : PaginationQuery) (req : Request) (drawn : Drawn cipher.Byte) (now : ℕ)
      (x y : Exchange) (outs : List DocumentOutput)
      → serve ⦃prisma = prisma⦄ ⦃order = order⦄ (documents (get_documents query)) req drawn now x
        ≡ (ok (Http.documents outs), y)
      → (length outs ≤ 100) × (length outs ≤ query.take) × (1 ≤ query.take)
  serve-bounded query req drawn now x y outs h =
      let (user, _, t, _, valid, ran) =
        serve-guarded ⦃prisma = prisma⦄ ⦃order = order⦄ (documents (get_documents query)) req drawn
          now x y (Http.documents outs) (documents_protected (get_documents query)) h in
      let (low, high) = within query valid in
      let few = listed query user req drawn now t y outs ran in (omega arith, few, low)
