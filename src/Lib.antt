-- ===== src/Lib.antt =====
-- The waitlist backend: guests join a restaurant's queue over HTTP, staff call, seat and close them,
-- and tables follow. This library models the rules of backend/app as functions of a store of rows
-- and proves what the rules keep.
--
-- Parts and files.
--   Common, Models, Errors: shared helpers; the rows and enums of backend/app/models.py; the coded
--     error of backend/app/errors.py and the result of a rule that may raise it.
--   Store: the rows of each table, in storage order, with the lookup by primary key, the write of a
--     row (`save_entry`, `save_table`), ORDER BY as a stable sort, and facts that writes keep.
--   Waitlist: backend/app/services/waitlist.py, one file for each of its sections: Statuses, Phone
--     (with `mask_phone` of backend/app/schemas.py), Dates, Numbers, Lookup, Join, Status, Cancel and
--     Board.
--   StaffWaitlist: backend/app/services/staff_waitlist.py, as Filter, Payload, Actions, Listing,
--     Reorder and EditBody; CloseDay is `_close_day` of backend/app/routers/staff_waitlist.py.
--   Tables: backend/app/services/tables.py, as Admin and Staff, with the commit of
--     backend/app/services/table_write.py; Routes is two handlers of backend/app/routers/admin.py.
--   Dashboard: backend/app/services/dashboard.py, with what it counts and writes in Dashboard.Counts.
--   Public: the waitlist routes of backend/app/routers/public.py.
--   Config: the settings of the process, backend/app/config.py, with the check of the signing secret.
--   Auth: backend/app/routers/auth.py and backend/app/dependencies.py: Crypto is what they take from
--     bcrypt and jose, Credentials the stored credential, Routes the login, the check of a bearer and
--     the change of the PIN, Tokens what tokens open.
--   RateLimit: backend/app/services/rate_limit.py: Storage is the capped store of counters and Key the
--     client that is counted; Sweep, Cap and Proxies are what they keep.
--   Schemas: the request models of backend/app/schemas.py that check more than a type, in Settings,
--     Guest and Pin; Join is the whole join route, its checks and the service.
--   SettingsService: backend/app/services/settings.py with the PATCH of backend/app/routers/admin.py.
--   App: backend/app/main.py and backend/app/seed.py: Bootstrap is the start, Seed the demonstration and
--     the reset route of backend/app/routers/admin.py, Routing and Paths the walks over the route tree,
--     Middleware the layers around the routes; Start, Fixture and Headers are what they leave.
--   ErrorHandlers: the handlers of backend/app/errors.py and the details of a refused body.
--   Requests: for each request, the ways that it can end; Requests.Steps makes one step of the store
--     of every writing route, and runs of such steps (`Reaches`); Requests.Line is the queue as the ids
--     of its rows, Requests.Moves the moves of such a queue, and Place and Refinement the requests as
--     those moves.
--   Api: every writing call of the process behind the check of its bearer, and runs of such calls
--     (`Serves`).
--   Invariant: what runs keep: soundness of the rows, the seating, and (Lifecycle) the moves of an
--     entry's status.
--   Examples: small stores, and the theorems at them.
-- The parts meet in the store alone: a staff action reads and writes entries and tables, the list and
-- the guest's status read share the lazy no-show, and the close of a day walks both kinds of rows.
-- Functions keep the names of the source without a leading underscore; the handler of a route is the
-- service function it calls, unless it does more.
--
-- State and errors. A rule takes the store and returns the new store with its answer, or an error;
-- an error leaves the store, as the session of a failed request is closed uncommitted. The status read
-- is the exception: its lazy no-show is committed before a later error, so it returns its store
-- beside the result. A request runs alone.
--
-- Bounds and fuel. Instants are microseconds since year 1 in UTC, numbers are naturals, and what the
-- source computes below zero is an integer of Common.Int. Loops are structural, over lists; the digits
-- of a number are printed with as much fuel as the number itself, which is more than its digits.
-- A row's id is a number, standing for its UUID; in a request `none` is text that is no UUID.
-- Letters are ASCII ones; digits are the decimal digits of Unicode. The eviction of counters has as
-- much fuel as there are counters, and the walk over the routes as much as it has rounds; both are
-- proved to be enough. The float of `total_seconds` is exact here.
--
-- Parameters. `Env` holds the configured branch and the local clock of each zone name, for zoneinfo.
-- The id of a new row and the token of a guest are draws of the request; that an id is fresh is the
-- hypothesis `IsFresh`. So are the salt of a hash, the generation of tokens and a minted request id.
-- The packages are records of operations and laws: Bcrypt (a PIN checks against its hash), Jwt (a
-- token verifies under its own key until it expires, and under no other key), MemoryStorage (its two
-- dicts have the same keys), Limiter, and the functions for the parser of JSON (`loads`) and for
-- starlette's match of a route (`full_match`). The store has one settings row where a theorem says
-- so, as the start of the process leaves it. A second reading of the clock within a request is the argument `wall`.
--
-- Not modelled: the web framework and its wiring, CORS, and the wrappers by which the guest routes count
-- a request once; the patching of the OpenAPI document; the load of the environment, the database
-- engine and the logging configuration; contention for the store (who gets the STORE_BUSY answer) and
-- the locks of the counters; the wording of messages; the `updated_at` of tables and settings; the
-- response models, which only list fields.
pub mod Common
pub mod Models
pub mod Errors
pub mod Store
pub mod Waitlist
pub mod StaffWaitlist
pub mod Tables
pub mod Public
pub mod Dashboard
pub mod Config
pub mod Auth
pub mod RateLimit
pub mod Schemas
pub mod SettingsService
pub mod Api
pub mod App
pub mod ErrorHandlers
pub mod Requests
pub mod Invariant
pub mod Examples
