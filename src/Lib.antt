-- ===== src/Lib.antt =====
-- A model of the passport service: accounts, tenants, organizations, and the access control over
-- them.
--
-- The program keeps its data in a SQL database (dao/), reads some of it through a cache in memory
-- (cache/), keeps roles and policies in a Casbin enforcer (accessctl/), and offers operations on
-- all of it (service/) to the HTTP layer (face/).
--
-- The files, bottom up:
--   Base, Text     numbers, lists, options; strings as lists of bytes, with decimal numerals
--   Errors         common/errors.go: the error values; what a Go function returns
--   Protos         protos/models.go: the records
--   Request        protos/request.go, common/common.go: the request of an account, passwords
--   Closure        dao/tenant_closure.dao.go and dao/tenant_closure_v2.dao.go: the rows of
--                  tenant_closure, and each SQL statement as a function on them. Lookup, Pairs and
--                  Statements say what a statement does to a stored depth, Forest what a table
--                  stands for, Insert, Stored, Move and Settled what the operations do to it
--   Cache          cache/expiredMap.go, with its laws, and the keys of cache/cache.go
--   World          the state: the tables, the cache, the time, the state of the enforcer; code that
--                  runs on it is a function from a state to a result and a state
--   Hoare, Live    rules for statements about such code: what holds when it returns, and what
--                  holds when it returns an error; that it returns, when no statement fails
--   Sms            sms/sms.go: codes sent and checked, with Codes and Answers
--   Paging         the loop over pages that services run, with Whole, Bounded and Holds
--   Text.Like      LIKE of SQL
--   Dao            dao/*.go: the statements, each of which may fail; Dao.Closure.Moving and Update
--                  follow the closure table through the move of a tenant; Dao.Account has the
--                  statements on accounts, Dao.Listing the pages of users, Dao.Page their offsets
--   DefaultCache   cache/cache.go: tenants, organizations and members in one map
--   Access         accessctl/: domains, roles and policies; the enforcer's calls are a parameter
--   Service        service/: Tenant (tenant.service.go, with Eviction), Org (org.service.go, with the
--                  coherence of the cache in Coherence, Membership, Steps and Changes), UserExt (the
--                  id lists of datascope.go), DataScope (the rest of datascope.go, with Members,
--                  Own, Ends and Scope), TenantUser (tenant.user.service.go, with Leaving),
--                  Parent (AdminTenantSetParent of admin.service.go, with Transaction and Atomic),
--                  User (user.service.go, with Registration, Passwords and Renaming), Login
--                  (user.login.service.go, with Accounts, Admission, Entering, Registered, Unguarded),
--                  Tree (tenant_tree.service.go and collectTenantSubtree, with Sight and Pages;
--                  the query is in Dao.Tree),
--                  Department (department.service.go, with Rows and Tenants), NewTenant
--                  (AdminTenantNew of admin.service.go and TenantAdd of tenant.service.go, with
--                  Insertion, Rows, Created and Unlisted), Admin (the rest of admin.service.go and
--                  AdminTenantQuery), TenantConfig (the configuration of a tenant, the roles of its
--                  users, TenantUserGet), Permission (permission.service.go); Reach has sequences
--                  of calls
--   Transaction    how their transactions end, with Ended
--   Http           face/http/wx_api.go and face/core/api_context.go: the table of APIs, the filters
--                  of a request and its dispatch, with Apis, Granting, Accepting, Dispatch, Unguarded and
--                  Visits; AdminTenant has the handlers of face/admin/admin_tenant.go, with Sessions and
--                  Outsiders
--   Tests          runs on concrete inputs
--
-- A database statement takes the next of the given faults: it fails and changes nothing, or does
-- what its SQL says. So a theorem about a state holds whatever statements fail. A failed statement
-- of a transaction makes the database refuse the later ones; the faults allow that and more.
-- Identifiers are natural numbers; the code does no arithmetic on them. A number that is read from a
-- JSON column has become a float64, which rounds it from 2 ^ 53 on. Times are in seconds.
--
-- The validator, SHA-256, time.Parse, the operator ->> of the database, the vendor of text messages,
-- the session store and the handlers that are not modelled are parameters; what they keep is one
-- state P with the state of the enforcer. Of ToLower and TrimSpace, the ASCII part is modelled. In
-- LIKE, `_` stands for a byte. A query without an ORDER BY gives its rows in the order of the
-- table, but the pages of users (UserQueryByOrg, UserQueryByTenant) come each in an order of its own,
-- which the state gives and no theorem fixes: a user may be on two pages, or on none.
-- The flag `disabled` of an account, an int8, is a natural number.
--
-- Every loop of the code is over a list, but those over the pages of a query, which run on fuel: one
-- unit for each page, of 500 rows in collectTenantSubtree and deleteUsersByTenant and of 200 in
-- memberUIDsInDeps. Fuel for more pages than there are is enough: a page that is not full ends the
-- loop, and deleteUsersByTenant has deleted the users of a full one before it reads again.
--
-- Not modelled: the decoding of requests and the writing of answers by the HTTP handlers (face/), the
-- handlers other than those of admin_tenant.go, the client and the example, the database drivers and
-- SQL builders (database/), schema creation and seeding, logging, the requests to the vendor of text
-- messages and the WeChat and Alipay clients,
-- the copies of the gorilla session libraries (sessions/), and concurrency: each operation of the
-- cache and of the services is one step. (In the code, Get and TTL give up the lock before they
-- delete an expired entry.)
pub mod Base
pub mod Text
pub mod Closure
pub mod Errors
pub mod Protos
pub mod Request
pub mod Sms
pub mod Paging
pub mod Cache
pub mod World
pub mod Dao
pub mod Access
pub mod DefaultCache
pub mod Service
pub mod Hoare
pub mod Transaction
pub mod Http
pub mod Live
pub mod Tests
