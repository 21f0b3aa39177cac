-- ===== src/Lib.antt =====
-- The gateway runtime: a Go service that runs as a browser gateway (role rebff) and as specialised
-- roles, of which the storage role answers requests for presigned operations on object storage. This
-- library models the storage role with what it calls, the sessions, tokens and logins of the gateway,
-- the middleware in front of the gateway's routes, the application's own routes, the client of outbound
-- calls with its circuit breaker, and the configuration from which a process is put together.
--
-- How the parts interact. The runtime's configuration names the roles and their capabilities. A request
-- to the storage role is decoded, validated against the configured targets, authorized (workload token,
-- actor, access policy), and answered by one call of the target's signer. A login leaves a flow with the
-- identity provider; the callback takes the flow, and stores a session and a token set under one fresh
-- identifier. The sessions' store ends a session by its lifetime and idle time. The token manager
-- returns an access token, and refreshes it under a lock when it is about to expire. A request of a
-- browser passes the limits on rate and concurrency and the CSRF check, and a route that asks for a
-- permission looks up the session and asks the static policy. Calls of other services pass a bulkhead, a
-- circuit breaker and a client that retries; the remote signers and the policy service of the storage role
-- are called through it. LoadConfig reads the environment, and RunWith builds the storage role's
-- configuration from what it returns.
--
-- Files:
--   Prelude: shared types and lemmas; Dict is Go's map[string]V, Exec is calls that change a state.
--   Text: the functions of Go's package strings that the code calls, on the characters of a text;
--     Decimal is strconv.ParseInt, Trim is trimming by a cutset, and Clean is path.Clean.
--   Duration: time.Duration and int64, with the wrap-around of a product.
--   RuntimeCfg: internal/runtimecfg/runtime.go.
--   Http: what a handler reads of a request.
--   Capability: internal/capability/storage.go.
--   StorageTarget: internal/storagetarget/registry.go.
--   StorageProvider: internal/storageprovider/registry.go.
--   AccessPolicy: internal/accesspolicy/accesspolicy.go.
--   RequestIdentity: internal/requestidentity/context.go.
--   WorkloadAuth: internal/workloadauth/verifier.go.
--   StorageContract: internal/storagecontract/contracts.go.
--   RoleRuntime: internal/roleruntime/server.go. Validate is validateStorageRequest and the decoders,
--     Authorize is authorizeStorage, Signers the choice of a signer and the readiness checks, Parts is
--     validateCompletedParts, Presign, Metadata and Multipart are the handlers, and Routes dispatches
--     to them. A handler refuses a request with a response, or names the one call of a signer
--     (Invocation) that answers it. Register has the patterns that Run registers at its mux.
--   Session: internal/session: store.go and memory.go, and lifecycle.go in Lifecycle.
--   Token: internal/token: store.go and memory.go, manager.go in Manager, lock.go in World.
--   Auth: internal/auth: contracts.go, unconfigured.go and flow_store.go, service.go in Service, and
--     http.go in Handlers. In World, the stores are those of one process; they can be made to fail.
--   Outbound: internal/outbound/protected.go and the kinds of errors of errors.go; client.go in Client.
--   RemoteSigner: internal/storage/remote_signer.go.
--   Policy: internal/policy/policy.go and static.go.
--   Cache: internal/cache/cache.go and memory.go.
--   UserContext: internal/usercontext/resolver.go and user_context.go.
--   Middleware: internal/httpx/middleware: csrf.go in Csrf, proxy.go and request_metadata.go in Proxy,
--     authorization.go and internal/audit/audit.go in Authorization, rate_limit.go in RateLimit,
--     concurrency.go in Concurrency, request_id.go and trace.go in RequestId; body_limit.go,
--     security_headers.go and operational.go in the parent. A handler is a function of the request and of
--     the world that it changes.
--   Router: internal/httpx/router.go, the order of the middleware around the application's mux.
--   AppApi: internal/appapi/handler.go.
--   App: internal/app/config.go in Config (with its validation) and Load, app.go in Wiring.
-- The other children are proofs, and the modules Tests hold concrete runs.
--
-- Correspondence. Functions keep the source's names in lower case. A function that returns a value and
-- an error returns a Result; one that changes a store is an Exec, in which what was written before an
-- error stays written. An interface value that may be nil is an Option. A time is in nanoseconds since
-- the year 1, so that the zero time is 0; an operation takes the readings of its clock as arguments,
-- and drawn random texts as well. A map is an association list in the order in which a loop visits it.
--
-- Parameters. Remote services, the HTTP transport and its timer, the mux, package net, float64, the
-- environment, the token verification of go-oidc, the identity provider, the parsers of net/url, time
-- and strconv (but for integers and Booleans), SHA-256 and encoding/json are arguments: any functions.
-- A body stands for what encoding/json decodes from it, with none where that fails.
--
-- Bounds. No definition runs on fuel: every loop is over a list or a text, and the client's loop is over
-- the attempts that are left. Products of seconds wrap
-- around in 64 bits; other sums of times are unbounded, where Go's would wrap after 292 years.
--
-- Not modelled: the mux and the system routes of router.go and system_routes.go, the logs and
-- audit of access_log.go, business_audit.go and redact.go, the part of RunWith for the role rebff, the
-- Redis stores, metrics and audit sinks, the capability registry and the capacity
-- model; they are whole parts of their own. Logging has no effect on a result. Two regions
-- of one memory store's Get that lock separately run as one step here. Routes names an endpoint by
-- its handler, and Register the patterns; what joins the two is not modelled, nor is GET /runtime.
pub mod Prelude
pub mod Text
pub mod Duration
pub mod RuntimeCfg
pub mod Http
pub mod Capability
pub mod StorageTarget
pub mod StorageProvider
pub mod AccessPolicy
pub mod RequestIdentity
pub mod WorkloadAuth
pub mod StorageContract
pub mod RoleRuntime
pub mod Session
pub mod Token
pub mod Auth
pub mod Outbound
pub mod RemoteSigner
pub mod Policy
pub mod Cache
pub mod UserContext
pub mod Middleware
pub mod AppApi
pub mod Router
pub mod App
