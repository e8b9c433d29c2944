-- ===== src/Lib.antt =====
-- XScopeHub: the core logic of its Go services.
--
-- The program is a set of services for observability. llm-ops-agent keeps operations cases: a state
-- machine decides which event moves a case, a repository makes each move in one PostgreSQL
-- transaction with its timeline, outbox and idempotency rows, HTTP handlers stand before it, and a
-- publisher sends the outbox to NATS. observe-gateway takes queries of tenants over HTTP:
-- it authenticates and limits a tenant, answers from a cache or asks OpenObserve, into whose SQL it
-- translates LogQL and TraceQL. mcp-server offers resources and tools over JSON-RPC.
-- observe-bridge streams records out of OpenObserve and triggers jobs that are still to be written.
--
-- Which file is about which part:
--   Prelude            bytes, numbers, time, maps, and `strconv.ParseInt`
--   Workflow           llm-ops-agent/workflow/workflow.go: State, Event, `Decide` (`decide`),
--                      and the relation `Step` of legal steps with its runs
--   Case.Tables        llm-ops-agent/db/sqlc/models.go: the rows, and the database that holds them
--   Case.Queries       llm-ops-agent/db/sqlc/ops_case.sql.go: each query as a change of the tables
--   Case.Session       one caller's view of the server: begin, statements, commit, faults
--   Case.Repository    llm-ops-agent/internal/ports/postgres/case_repo.go: CreateCase
--                      (`create_case_call`) and Transition (`transition_call`)
--   Case.Handlers      llm-ops-agent/api/handlers.go and
--                      llm-ops-agent/internal/services/orchestrator/orchestrator.go
--   Case.History       what any number of those calls and flushes leave in the tables
--   Case.Routes        `RegisterRoutes` of handlers.go, and what requests leave in the tables
--   Case.Publisher     llm-ops-agent/internal/outbox/publisher.go: `flush`
--   Gateway.Query      observe-gateway/internal/query/types.go
--   Gateway.Translate  the translators of observe-gateway/internal/backend/client.go, over the
--                      functions of `strings` in Gateway.Text
--   Gateway.Backend    the rest of client.go, with metadata.go and types.go beside it
--   Gateway.Auth       observe-gateway/internal/auth/authenticator.go
--   Gateway.Limiter    observe-gateway/internal/limiter/limiter.go, its Redis script included
--   Gateway.Cache      observe-gateway/internal/cache/cache.go
--   Gateway.Audit      observe-gateway/internal/audit/audit.go
--   Gateway.Server     observe-gateway/internal/server/server.go: `handle_query`
--   Gateway.Run        `Run` of that file
--   Gateway.Wired      `New` and `Handler` of that file, over the gateway's own parts
--   Gateway.Config     observe-gateway/internal/config/config.go
--   Gateway.Start      observe-gateway/cmd/gateway/main.go, with the constructors of client.go and
--                      metadata.go that it calls
--   Mcp.Registry       mcp-server/internal/registry/registry.go and internal/types/types.go
--   Mcp.Server         mcp-server/internal/server/server.go: `handle_request`
--   Mcp.Http           `ServeHTTP` of that file, and mcp-server/pkg/manifest/manifest.go
--   Mcp.Samples        the sample data of registry.go, as mcp-server/cmd/mcp/main.go registers it
--   Mcp.Command        mcp-server/cmd/mcp/main.go
--   Bridge.Window      observe-bridge/etl/pkg/window/window.go and `parseWindowParams`
--   Bridge.Stream      observe-bridge/etl/pkg/oo/oo.go: `stream`
--   Bridge.Jobs        observe-bridge/etl/jobs/jobs.go and the packages of observe-bridge/etl/pkg that
--                      the handlers call
--   Bridge.Config      observe-bridge/internal/etl/config/config.go
--   Bridge.Server      observe-bridge/internal/etl/server.go
--   Bridge.Command     observe-bridge/cmd/main.go
--   Bridge.Graph       observe-bridge/internal/analytics/graph/graph.go: its statements
--   Agent.Daemon       llm-ops-agent/cmd/main.go
--   Agent.Server       llm-ops-agent/internal/server/server.go
--   Agent.Settings     llm-ops-agent/internal/config/config.go
--   Agent.Analysis     llm-ops-agent/internal/agent.go, and model, input, analyzer beside it
--
-- A function of the source is a function of the same name in snake case. Go's errors are values of
-- `Outcome`. A database is a record of its tables, and a repository call takes and gives a `World`:
-- the committed tables, the open transaction, which of the calls to come will fail, and
-- what `nc.Publish` was given, which fills the buffer of the client and may never reach NATS. Before a
-- transaction begins, other callers may change the committed tables at will; from then on it runs
-- alone, so that transactions do not interleave in the model, and the order of rows that two open
-- transactions write in turns is not described.
-- Every loop is structural recursion; only the printing of a number has fuel, for the twenty digits
-- that a number of 64 bits fits in. Integers are compared and never added beyond 64 bits, a row's
-- version apart, which grows by one a step.
--
-- What is not under the repository is a parameter: PostgreSQL's JSON check, clock and locks, the
-- encodings as JSON, jwx, ristretto, golang.org/x/time/rate, URLs and HTTP exchanges. Texts are
-- bytes; `strings.TrimSpace` acts on ASCII, and so does `strings.ToLower`, but for
-- `translateTraceQL`, where it is a parameter, and a panic of the slice is an error. A failed commit is
-- taken to have changed nothing. Requests to the gateway are taken one after another.
--
-- Not modelled: the vector DAO of observe-bridge, whose statements never run since lib/pq does not take
-- their []float32, the flags of the command lines, the middleware of routers, the shutdown of
-- listeners, telemetry, and the logging of what is done.
pub mod Prelude
pub mod Workflow
pub mod Case
pub mod Agent
pub mod Bridge
pub mod Gateway
pub mod Mcp
