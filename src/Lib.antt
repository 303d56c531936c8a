-- ===== src/Lib.antt =====
-- Verification of the Litestar CQRS template: a web API with commands and queries, roles with
-- permissions, JSON web tokens, a Redis cache and a SQL database behind SQLAlchemy.
--
-- A request passes the authentication middleware (Access), which verifies its access token, loads
-- the user and checks the route's rule against the permission that the database gives. A
-- controller then sends a DTO through a bus (Bus), whose middlewares cache the answers of queries
-- and invalidate them after commands. The handlers work with the refresh store (Jwt), the cache
-- and the lock (Cache), and with repositories whose exceptions become results (Result, Errors).
-- Those of login, logout and refresh (UseCases) find the user through the authenticator and drive
-- the refresh store.
--
-- Files:
--   Common        shared names, Boolean tests, lists and Python's text operations
--   Errors        src/backend/app/contracts/exceptions.py
--   Effects       coroutines as functions from a state to an answer or an exception and a state
--   Result        src/backend/infra/shared/result.py, with exceptions whose arguments are texts;
--                 Arguments has any exception
--   Services      what packages and servers give: Redis, PyJWT, SHA-256, base64, uuid4
--   Cache         src/backend/infra/cache/redis.py, src/backend/infra/shared/shared_lock.py
--   Jwt           src/backend/infra/security/jwt.py and the tokens of
--                 src/backend/app/contracts/auth.py
--   Loads         src/backend/infra/database/alchemy/tools/sqla_autoloads (node.py, the search of
--                 core.py, and the names of tables of tools.py)
--   Access        src/backend/app/contracts/auth.py (rules, permissions, the names of a request),
--                 src/backend/http/common/tools/resolvers, route_rule.py beside it,
--                 src/backend/http/v1/controllers/private/middlewares/auth.py and
--                 src/backend/infra/security/auth.py
--   Bus           src/backend/app/bus: core.py and middlewares (Onion), builder.py (Builder), the
--                 caching middlewares (Caching) and how they interleave (Epochs)
--   Transaction   src/backend/infra/database/manager.py, over a connection that is a parameter
--   Config        src/config/core.py, the sums of workers and connections
--   Queries       src/backend/infra/database/alchemy/queries/base.py, the pages by cursor and by
--                 offset, over a database that answers statements, and the cursors of
--                 src/backend/infra/database/alchemy/tools/common.py (Codec)
--   UseCases      src/backend/app/use_cases/commands/auth, which log in, log out and refresh, and
--                 src/backend/infra/security/hasher.py over the hasher of argon2, a parameter
--   Filters       src/backend/http/common/tools/query.py, the classes of query parameters
--   Rules         create_rules of src/backend/http/dependencies.py: its loop, its transaction
--                 (Creation), and its lock and key of the cache (Startup)
--   Gateway       src/backend/infra/database/alchemy: the statements of queries/base.py and
--                 queries/rbac.py, over a database that executes statements; Repositories is
--                 repositories and dao.py, Commands the handlers of users and roles of
--                 src/backend/app/use_cases over the transaction manager; Memberships is what
--                 commands for roles make of the table of pairs, Users what they make of users
--   Api           src/backend/http/v1/controllers/private: the endpoints of rbac.py (Rbac) and user.py
--                 (Accounts) with their rules, and a request from the middleware to its handler
--                 (Service) through the middleware of the command bus (Sent), with the key of a cached answer of src/backend/http/common/tools/context.py
--                 (Context); Public is src/backend/http/v1/controllers/public, with the statuses of
--                 src/backend/http/common/exceptions.py
--   Injection     src/backend/shared/di: the container, the compiled factories and their markers,
--                 the wrapper of an asynchronous function (Wrapped), and what
--                 `inject` reads from a signature (Signature)
-- Each of them is the parent of the modules with its theorems; its module Tests has runs and
-- instances of the theorems at concrete inputs.
--
-- A coroutine is a function from the state it sees to a `Try` and a state: what was written before
-- an exception stays written. A record of functions stands for each package or server; the laws
-- that a proof relies on are records of their own (`ListLaws` for the lists of Redis, `Locks` for
-- a lock that is free), and Services/Sample.antt fills them with a concrete server. Times are
-- seconds, and keys in Redis do not expire between the calls that a theorem relates.
--
-- Loops with a queue or a stack run on fuel. `bfs_search` has a round for the start and one for
-- each relationship of the mapping, and `get_table_names` one more than the root has elements; their
-- theorems say that they never run out.
-- `resolve_async` calls itself once, and its theorem gives it two calls.
-- `collect_keys` has one round for each container of the value and one for the value itself, and its
-- theorem gives its answer in every case.
--
-- Not modelled: the attributes that `inject` of src/backend/shared/di sets on its wrapper and the
-- wrapper of a function that is not asynchronous, and the joins that
-- sqla_autoloads/core.py builds along a path of relationships. The statements that SQLAlchemy
-- builds, the migrations, the servers' start-up, the logging and metrics, and the OpenAPI documents
-- call libraries and have no logic of their own. The commands of the cache that nothing sends, among
-- them clear and decrement. Service asks a query as where its answer is not in the cache, which
-- Bus/Caching and Bus/Epochs model. Exceptions outside Result/Arguments have arguments that are texts.
mod Common
pub mod Errors
pub mod Effects
pub mod Result
pub mod Rules
pub mod Services
pub mod Cache
pub mod Filters
pub mod Gateway
pub mod Api
pub mod Injection
pub mod Jwt
pub mod Loads
pub mod Access
pub mod Bus
pub mod Transaction
pub mod Config
pub mod Queries
pub mod UseCases
