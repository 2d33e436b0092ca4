-- ===== src/Lib.antt =====
-- A model of elgon, a web framework in Go, with the theorems that make its core correct.
--
-- Parts, and the files that model them (paths are from the root of the repository):
--   * Path (route.go, normalizePath of app.go): paths and patterns. A string is a list of code
--     points, which is what the code's ASCII tests and separators see of it.
--   * Router (router.go): the tree of routes. A Go map is an association list; a nil child is
--     `vacant`; the handlers are of any type. `add` returns `none` where the code panics, and
--     `find` returns the route as an option in place of the third result. Router/View reads the tree
--     as a map from patterns to routes, Router/Dispatch says when a pattern covers a path.
--   * Http (ctx.go, errors.go, writeError of app.go): the context with the response it writes, which
--     is passed from call to call, and typed errors. A handler returns, with an error or without, or
--     panics.
--   * Middleware (middleware/, the guards of auth/auth.go, the recording of observability/metrics.go).
--     The identifier that RequestID makes and the verification of tokens are parameters.
--   * Auth (auth/): Auth/Jwt has Sign and Verify over HMAC, base64 and JSON, which are a parameter
--     (`Codec`, whose laws are `IsDocumented`), Auth/Request the middleware with that verification,
--     Auth/Oidc the OAuth exchange, the discovery and the checks of ID tokens, over the HTTP answers.
--   * App (app.go, group.go, named_route.go, ServeHTTP of router.go): registration, the chain of
--     middleware, plugins and dispatch. The handlers that a router stores are those that `chain`
--     wraps at registration, as in the code.
--   * Orm (orm/table.go): Orm/Value has the values and identifiers, Orm/Expr and Orm/Where the
--     translation of where maps, Orm/Query the four statements, Orm/Records the maps of rows, Orm/Table
--     the operations over a database that is a parameter (`Database`), Orm/Table/Batch the creation of
--     many rows over one with transactions (`TxDatabase`). Orm/Template is the specification of the
--     statements: a text of safe characters with placeholders that are numbered in one run.
--   * Migrate (migrate/migrate.go): the engine, over a database that is a parameter (`Adapter`).
--     Migrate/Plan has the plan that a run executes, Migrate/Applied the laws of a database that the
--     theorems on the table of versions rely on (`Honest`: what each statement and each step of a
--     transaction does to that table, where no one else writes to it, and rows come in any order), with
--     an instance in Migrate/Tests; the scripts that they are about leave that table alone (`Leaves`).
--     Migrate/Names has the names of migration files, Migrate/Loader the loading of a directory, and
--     Migrate/Models with its child the migrations that are generated from model files
--     (migrate/loader.go, migrate/generate.go). What the Go parser gives is a value, and the files,
--     the clock and random numbers are parameters.
--   * Orm/Schema (orm/schema.go): the tags of struct fields, and in its children the SQL types, the
--     statement that creates a table and AutoMigrate. What the code reads by reflection is a value.
--     Nothing is said of what a rollback undoes: MySQL commits at each CREATE TABLE.
--   * Jobs (jobs/): Jobs/Sql has the operations of the queue in an SQL table, over a database that is a
--     parameter; Jobs/Sql/Rows says what its statements do to the rows (`Honest`), and
--     Jobs/Sql/System interleaves any number of workers and callers, one statement at a time.
--     Jobs/Queue is the queue in memory: the channel is a list with a capacity, and Jobs/Queue/Fifo
--     interleaves callers, workers and Close, with the two halves of Enqueue as steps of their own.
--     Jobs/Queue/Worker is about the end of a worker, whose rounds say when the context is done.
--     Jobs/Redis and Jobs/Kafka are the queues over those clients, Jobs/Cron the expressions of
--     schedules.
--   * App/Setup (app.go, config.go, group.go, named_route.go): the defaults of the configuration, a new
--     application with its default routes, and registrations by verb. Http/Bind has BindJSON and
--     Validate of ctx.go, Auth/Oidc/Url the addresses of OAuth logins, Middleware/Logger the entries of
--     the logger. App/Data (app_db.go) has the database accessors as steps under their lock, in any order.
--   * Metrics (observability/): the counters of requests and the text that they are exported as, and
--     the events that the tracing middleware makes. Metrics/Lines is a reader of that text, and
--     Metrics/Order the order of its lines.
--   * OpenApi (openapi/): OpenApi/Schema has Go types, schemas and the annotations of fields,
--     OpenApi/Build the schema of a type with those that it refers to, OpenApi/Paths the templates of
--     paths, OpenApi/Generator the state of the generator, OpenApi/Document its schemas and the document,
--     which it builds of the routes of App, and OpenApi/Endpoints the two routes that serve it. A program is its structs by number (`Program`).
--   * Command (cmd/elgon/main.go): the command line over a state of files, directories and programs
--     that ran, without links;
--     Command/Files has the model files of migrate generate, and openapi; Command/Migrations has
--     migrate, which runs the engine of Migrate.
--   * Database (db/): data source names, and the opening of a database.
--   * Config (config/config.go): settings from the environment. What the code reads by reflection is
--     a value; a signed field keeps as many bits as it has.
--   * Base: shared names, and the functions of package strings that the code uses.
--
-- Each loop is recursion on the list, the tree or the value that it goes through; only `decimal` of
-- Base/Text, which stands for the verb %d, divides by ten on fuel, and Base/Text/Decimal shows that
-- its fuel is enough. The worker loops, which have no end of their own, take a number of rounds.
-- `buildSchema` is on fuel, the depth of its calls: OpenApi/Build/Depth and OpenApi/Build/Endless are
-- about how much is enough.
-- Counters are natural numbers, except the metrics' uint64, which wraps around; the times of tokens
-- are 64-bit integers (Base/Int); versions are integers without bounds, limits and offsets natural
-- numbers, since the code treats a negative limit or offset like 0. Sorting is by insertion; where the
-- code's sort may leave equal versions in any order, the model keeps one.
--
-- Not modelled: the server's start and shutdown, the JSON texts of replies and the body limit,
-- which are calls of the standard library; the requests of an OAuth login; the tickers of workers and
-- schedules, and the closing of the distributed queues; settings from JSON files; the adapters of
-- databases and clients, which call their libraries, and the examples.
pub mod Base
pub mod Path
pub mod Router
pub mod Http
pub mod Metrics
pub mod Middleware
pub mod Auth
pub mod App
pub mod Orm
pub mod Migrate
pub mod Jobs
pub mod Config
pub mod Database
pub mod Command
pub mod OpenApi
