-- ===== src/Lib.antt =====
-- A verification library of the Go service go-fiber-starter: a task API over a relational database,
-- with logins by tokens, on the web framework Fiber and the mapper GORM.
--
-- A request passes the chain of internal/router/router.go to a handler. The handlers of
-- internal/modules/task/handler.go parse the request and call the service (service.go), which calls
-- a repository: an interface of the service that repository.go implements over GORM. Handlers return
-- errors, which the error handler of router.go turns into the envelope of internal/httpx. With
-- authentication on, the guard of internal/modules/auth/middleware.go stands before the handlers.
--
-- Which file models what:
--   * Apperror: internal/apperror/errors.go. An error is a value with its chain of causes, and
--     `find_app`, `find_fiber`, `find_validation`, `is_sentinel` and `is_app` are the walks of
--     `errors.As` and `errors.Is`. A foreign error has one `Unwrap` at most; joined errors are left
--     out.
--   * Httpx and Fiber: internal/httpx/response.go, and what the program reads of a request. A handler
--     is a function from a request and a state to an error or a response, and the state.
--   * Pagination: internal/pagination/pagination.go. `int` and `int64` are integers of 64 bits with
--     their wrap-around (Prelude/Int).
--   * Validator: internal/validator/bind.go and validator.go, over the library of the tags `validate`.
--     Validator/Tags says what the library and the framework's binding are expected to do.
--   * Task: internal/modules/task. Model and Dto are the data (model.go, errors.go, dto.go), Gorm the
--     record of the operations of the mapper with its documented laws (a parameter), Repository the
--     interface and its implementation (repository.go), Repository/Contract what the service expects
--     of an implementation, Service and Handler the files of that name, Routes the table of routes.go,
--     Memory a table in memory that shows that the laws of the mapper can be met. Routes/Spec is the
--     API as a map from keys to tasks, and Routes/Replies the envelopes that it sends; Routes/Plain
--     writes out what a task looks like on the wire and what a change makes of it, apart from the code.
--     A column may keep a time in its own precision, as those of db/migrations do (`Stored` of Gorm).
--     Repository/Race has the statements of updates of one row, as steps that interleave.
--     Routes/Bodies is about what a body comes to, Handler/Limits about the text of a limit, and
--     Routes/Statuses about the statuses of the replies.
--   * Auth: internal/modules/auth. The token library is a parameter with its documented laws
--     (Auth/Service/Tokens), and so are the binding of bodies and the readings of the clock.
--   * Payload: what the handlers put under `data`.
--   * Middleware/EffectiveStatus: internal/middleware/effective_status.go.
--   * Router/ErrorHandler: `errorHandler` and `mapFiberError` of internal/router/router.go. The log is
--     a list of entries (Log).
--   * Router/Chain: `New` of internal/router/router.go, over the limiter of the framework, and
--     Middleware/RequestLogger and Middleware/Prometheus the observers of internal/middleware. `serve`
--     is one request from the chain to the response. Which route the framework finds is an argument.
--     Middleware/Metrics registers the collectors of the metrics, on the registry of cmd/api/main.go.
--     Router/Settings is what `New` hands to the framework. Router/Life has a running service as a
--     step relation: requests that are served one after the other, and budgets that change with time.
--     Router/Life/Budget states what is expected of the limiter of the framework, as `IsLimiter`.
--     Router/Chain/Panics is the chain around handlers that may panic, from the framework's `recover`
--     on. Router/Chain/Outer puts request ids, security headers and CORS before it: `serve_whole` is
--     all of the chain (Inner, Origins and Traced are about it). Router/Chain/Documented has the
--     statuses that api/openapi.yaml lists for the login and the tasks.
--   * Health: internal/modules/health. World: what a running service changes.
--   * Config: internal/config/config.go. Config/Rules states the rules of a configuration, apart from
--     the checks. A problem is a message before it is printed. Net and Lowercase are the functions of
--     Go's standard library that the checks use. Config/Environment has the variables of the
--     environment with their defaults, over the library that reads them.
--   * Database: internal/database/migrator.go and logger.go, and Database/Connection database.go,
--     over the drivers, the mapper and the file system. Database/Explicit relates the migrator to the
--     environment. Filepath: the paths of Unix, as Go cleans them.
--   * Migrate: cmd/migrate/main.go and db/migrations/embed.go, over the migration library. A `Session`
--     is the process, with what it prints.
--   * Api: cmd/api/main.go, from the configuration to the exit code. `run` connects the database,
--     migrates it, hands the chain of Router/Chain to the framework's Listen, and closes the pool.
--     `Host` is what it builds on, and Api/Lifetime says what is expected of it.
-- Prelude holds the lists, numbers and texts that all of them share, and Tests what the theorems say
-- at concrete inputs.
--
-- Choices: a time is its distance from the zero time; `uint` is a number, and a key that is parsed
-- has 64 bits; a context is left out, since the program only passes it on. Every function of the
-- model is total by structural recursion; only the printing of a number takes fuel, one more than the
-- number itself, which has fewer digits. A panic of a division by zero is an error value. The
-- transaction of an update is the mapper's: its laws say that it commits if the function returns nil
-- and keeps the rows otherwise. A request is one step of a running service; requests at the same time
-- are modelled where the code locks a row, in Task/Repository/Race. The
-- entries of the log are those that the program hands to log/slog, below its level or not; the
-- signals that end Listen are the framework's, and so is the time that it waits.
--
-- Not modelled: the answers to a path that no route has, apart from 404 (the guard of the group of
-- tasks runs before it below /api/v1/tasks, and a path with another method is a 405); a negative
-- AUTH_TOKEN_TTL, which `Validate` excludes; what the framework's middlewares do inside, the headers that handlers set, and the
-- values of the latency histogram and of the collectors of the runtime; the SQL of the migrations; the
-- schemas of api/openapi.yaml; api/embed.go and internal/testutil, which hold no logic.
pub mod Prelude
pub mod Apperror
pub mod Api
pub mod Pagination
pub mod Fiber
pub mod Filepath
pub mod Httpx
pub mod Validator
pub mod Log
pub mod Middleware
pub mod Router
pub mod Task
pub mod Payload
pub mod Auth
pub mod Tests
pub mod Net
pub mod Lowercase
pub mod Config
pub mod Database
pub mod Migrate
pub mod Health
pub mod World
