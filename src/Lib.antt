-- ===== src/Lib.antt =====
-- Verification of nest-nexus, a NestJS back end whose subject is authentication and authorization.
--
-- The services are translated into functions of one state, the record App of Schema: the tables of
-- prisma/schema.prisma as lists of rows, the shared cache, the events that were emitted, the calls that
-- were started and not awaited, and the queued e-mails. A service method is an action of Exec: a function
-- of the state into a result, a value or the exception that was thrown, and the state after it, so that
-- what was written before a throw stays written. Constraints, not-found errors and roll-backs are those of
-- the Prisma client.
--
-- What is not in the repository is a parameter with the laws that the code relies on:
-- - Prisma: the Prisma client over one table, with the laws PrismaLaws, or OutageLaws for a client whose
--   database may go away under a deletion; the order of a sorted query is OrderBy, of which only is used
--   that it keeps the rows. Store turns it into actions on the state.
-- - Cache: the cache manager, whose values last until they expire.
-- - Env: hashing, bcrypt, the signing and verification of tokens, text case, the formats of e-mail and
--   picture addresses, and the configuration.
-- - Crypto: the cipher and the encodings. Auth/TwoFactor: one-time passwords. Auth/Webauthn: the checks of
--   passkeys, which may throw. Controllers/Oauth: the profile that passport has got from a provider.
--   Scheduler: Redis.
-- The laws determine Prisma, the cache manager and Redis, so that properties are proved for the client by
-- lists, the cache by a function and the locks by a function, and hold for every client with the laws.
-- The ids, tokens and codes that the code draws at random and the time are arguments; time is one number
-- of milliseconds per call.
--
-- The parts, with their files here and in the repository:
-- - Authorization: src/modules/authorization. Rbac is the role map, Policies the attribute policies,
--   Relations the stored relations (grant, revoke, check, object_ids_for), Decision the composed decision
--   can and the filter readable_document_where. Readable, Settles, Related, Rules, Table and Order hold the
--   proofs.
-- - Document: src/modules/document/document.service.ts. Reads, Pages, Grants, Owners, Ownership and
--   Removal hold the proofs.
-- - Auth/Token: src/modules/auth/token.service.ts; the sessions by device are in
--   Auth/Token/Devices; proofs in Auth/Token/Families, Reuse and Auth/Token/Devices/Listed.
-- - Auth/Service and Auth/Oauth: src/modules/auth/auth.service.ts; proofs in
--   Auth/Service/Login, Lockout, Logout and Register, and in Auth/Oauth/Links and Linked.
-- - Auth/TwoFactor, Auth/MagicLink, Auth/ApiKeys, Auth/Webauthn, Auth/JwtStrategy and Auth/JwtRefresh: the
--   services and the strategies of those names under src/modules/auth, with their proofs in the children.
-- - Users: src/modules/users/users.service.ts; proofs in Users/Counts, Changes and SuperAdmins.
-- - Email: src/core/queues and src/core/mailer; proofs in Email/Escape and Email/DeadLetters.
-- - Invalidation: src/core/cache/cache-invalidation.service.ts; proofs in Invalidation/Coherence.
-- - Guards and Filter: src/common/guards and src/common/filters; Guards/Passed has what holds when a guard
--   has let a request pass. Crypto and Duration: src/common/crypto and src/common/utils.
-- - Scheduler: src/core/scheduler, the lock and the cleaning jobs; proofs in Scheduler/Holder and Released.
-- - Http, Controllers and Validation: the requests, replies and cookies; a module for each controller of
--   src/modules, with its routes, the decorators and the handlers; and the classes in the dto folders, as
--   tests of values.
-- - Server: src/app.module.ts and src/main.ts, the way of a request: the global guard, the guards of the
--   class, the validation, the handler, and then the listeners of the events that it emitted. The proofs
--   on routes are in Pending, Privileges, Roles, Cookies, Bounds, FullSession, Notices and AtOnce.
-- - Exec has the rules for blocks that answered, Exec/Keeps those for what a block leaves true. Prelude
--   holds the shared lemmas on lists, Samples and the modules named Tests and ListTests the examples.
-- The services call each other as in the source: sign-in goes through the tokens, documents through the
-- decision and the relations.
--
-- Loops are recursion on lists, and no fuel is used. The statements of one method run without others in
-- between, so that races of concurrent requests are not modelled, except for the steps of the lock, of the
-- document service, of the users service and of the token check, whose runs are in any order. A count that
-- JavaScript holds as a double is an exact number. The listeners of a request's events have run before the
-- next request is served. Not modelled are the parsing of requests and the printing of replies, with the
-- reading of a bearer token, which are Nest's and passport's; the throttler; the messages of the
-- validation; the checks of the configuration, a schema of a library over the numbers of JavaScript; the
-- server of mail and the publishing on Redis; logging, the interceptors, health checks and the data for
-- development.
mod Prelude
pub mod Exec
pub mod Prisma
pub mod Enums
pub mod Schema
pub mod Store
pub mod Authorization
pub mod Env
pub mod Cache
pub mod Crypto
pub mod Duration
pub mod Document
pub mod Auth
pub mod Users
pub mod Validation
pub mod Invalidation
pub mod Guards
pub mod Http
pub mod Controllers
pub mod Server
pub mod Filter
pub mod Scheduler
pub mod Email
pub mod Samples
