-- ===== src/Lib.antt =====
-- Dawn Patrol, an association's calendar of races: the web application (web/) with its page, the
-- scripts that build, serve and test it, and their configuration, and the API (api/) that copies
-- the races from the Rails databases and serves them.
--
-- The parts and the files that model them:
--   Env           web/config/env.js: the .env files, NODE_PATH and the client's environment
--                 (`dotenv_files`, `load_files`, `read_env`, `raw_environment`, `stringified`).
--   Paths         web/config/paths.js: `resolveModule` and the exported paths.
--   Modules       web/config/modules.js: `getAdditionalModulePaths`, `getWebpackAliases`,
--                 `getJestAliases`, `getModules`.
--   Https         web/config/getHttpsConfig.js: `validateKeyAndCerts`, `readEnvFile`,
--                 `getHttpsConfig`.
--   Webpack       web/config/webpack.config.js, with Styles for `getStyleLoaders`, Rules for
--                 `module.rules`, Plugins for `plugins` and the asset manifest, Resolve for
--                 `resolve`, and Configuration for the object that the function returns.
--   DevServer     web/config/webpackDevServer.config.js.
--   Scripts       the first lines of the scripts of web/scripts, which set the mode and load
--                 web/config/env.js.
--   Build         web/scripts/build.js: the chain of promises, as a computation that logs its
--                 effects and may reject (`Run`), its two handlers and its exit status (`run`).
--   Start         web/scripts/start.js: the launch (`launch`), and the server as a machine that
--                 events drive (`step`).
--   TestScript    web/scripts/test.js: the commands that are run and the arguments for jest.
--   ServiceWorker web/src/serviceWorker.js: `register` and `unregister`, as a machine that the
--                 browser's events drive. A pending promise or handler is a flag of its state.
--   App           web/src/App.js and web/src/Events.js.
--   Jest          web/config/jest/fileTransform.js, web/config/jest/cssTransform.js and
--                 web/config/pnpTs.js.
--   Api           api/pkg/event.go, api/pkg/association.go and the records of api/pkg/rails, with
--                 Services for the interfaces, Databases for api/pkg/db/databases.go, Events for
--                 api/pkg/db/event.go, Associations for api/pkg/db/association.go, Zone for
--                 `ToAssociationTimeZone` (api/pkg/rails/db/event.go), Copy for the body of `Copy`
--                 and Rails for the rest of api/pkg/rails/db, and Instrumentation for the three
--                 files instrumentation.go outside api/pkg/http. Calendar is what the API promises
--                 of its database: for each association a bag of events (Bags, a quotient of
--                 lists), which publishing events adds to. Concurrent has two copies at once: the
--                 queries of each are steps (`step`) of a thread, and a list of turns says how the
--                 two interleave (`interleave`).
--   Server        api/pkg/http, api/pkg/rails/http/copy.go, api/pkg/log/request.go and
--                 api/cmd/api/api.go: handlers (`root`, `copy_handler`, `status`, `test_panic`) as
--                 actions on a context that may panic, their routes (`routes`), and the server
--                 that `main` makes of the services (`api`).
-- Four modules model the languages and their platforms: Regex JavaScript's regular expressions,
-- with a test by derivatives and the language that it decides, ParseInt its `parseInt`, Platform
-- the functions of `path` and `fs`, which are parameters, and Printf Go's `fmt.Fprintf` without
-- operands. Prelude has what all of them share: objects as association lists in order of insertion
-- (Object), texts with their code points, truthiness, splitting and joining, and results that may be
-- thrown. Tests runs the model on concrete inputs.
--
-- How they interact: a script sets the mode and loads Env, which reads Paths; Modules and Https
-- read the environment that Env left, Webpack reads Modules, and DevServer reads Https.
-- `process.env` is a list of keys and values that is passed on explicitly. The page of App asks for
-- /index.json, which DevServer passes on to the API of Server; a request for /rails/copy runs Copy
-- through the services of Api. Server.Page and Server.Copied are about these chains as a whole.
--
-- Packages are parameters. dotenv with dotenv-expand is `load`, and `IsDotenv` says of it what
-- its documentation does, for files whose values refer to no other variable; JSON.stringify is
-- `quote`, getPublicUrlOrPath `public_url`, the readers of tsconfig.json and jsconfig.json are
-- `read_ts` and `read_js`, Node's crypto is `Crypto`, and webpack's choice among the rules of
-- `oneOf` is `pick`, of which `IsOneOf` says that the first rule that applies takes the file.
-- gorm is `Store` and `EventTable`, over any type of database states; `IsStore`, `IsEventTable`,
-- `KeepsEvents`, `IsHosted` and `IsApart` say what it and Postgres document of rows that are created
-- and found. The constraints of db/schema.sql are among them: the unique indexes of the
-- associations' acronyms, hosts and names (`free`), and the foreign key of the events (`knows`).
-- goji, raven and json.Marshal are `Packages`; `IsPackages` says that goji takes the first route
-- for a request and that raven answers a panic with an error by the status 500, and panics itself
-- where the value is no error, as the version does that the API is built with. In Build and Start a
-- call of a package is an input that says how it ends, and the theorems hold for every input.
--
-- Bounds: no function runs on fuel but the printing of a number in decimal (ParseInt.Decimal),
-- whose fuel is one more than the number, while each digit divides it by ten; the loop over the
-- attempts to open a database is recursion on the attempts that are left. A schedule of two copies
-- is as long as one likes; three turns more than a copy has events are enough for it. Numbers beyond
-- 2^53 are kept exact where JavaScript rounds them. Texts are lists of code points, where
-- JavaScript's are lists of UTF-16 units; all texts that the code cuts are split at ASCII
-- characters.
--
-- Not modelled: the options of webpack, of its loaders and plugins and of its server that are
-- constants; a throw of `configFactory` or of `printBuildError` in the scripts, which ends them as
-- well; the colours of the logs and the messages between the server and the browser; the rendering
-- by React. Of the API: the log lines of the services, the closing of connections, the headers and
-- the body that net/http adds or withholds, requests at once other than two copies, a query that
-- fails because the connection is lost, and the wall clocks that a time zone skips or repeats. The
-- databases, the transfer, the end-to-end tests and the deployment are not part of this library. A
-- page is taken to get one load event, as browsers send it, since the listener of ServiceWorker is
-- dropped with it.
pub mod Prelude
pub mod Regex
pub mod Platform
pub mod Env
pub mod Paths
pub mod Modules
pub mod Https
pub mod Build
pub mod ParseInt
pub mod Printf
pub mod Jest
pub mod Start
pub mod ServiceWorker
pub mod Scripts
pub mod TestScript
pub mod Webpack
pub mod DevServer
pub mod App
pub mod Api
pub mod Server
pub mod Tests
