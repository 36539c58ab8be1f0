-- ===== src/Lib.antt =====
-- Tork, a web framework for Rust: a model of its runtime crate (crates/tork-core), of the
-- documents of its API (crates/tork-openapi) and of the values in its macros (crates/tork-macros),
-- and theorems about them.
--
-- How a request runs. A server accepts it, the chain of middlewares runs around the dispatch, the
-- matcher finds the route, extractors read parameters and bodies, and the handler answers with a
-- response, an error or a stream. Rate limits are checked in front of a handler.
--
-- Which file models which part (paths below crates/tork-core/src):
-- - Base: shared helpers. Text is the list of its bytes; maps are association lists by text.
-- - Error: error.rs. The kinds, the error value, causes, and what an error renders to. `Result` is
--   the crate's result type, and `>>=` is the operator `?`.
-- - Router: router/mod.rs (Router/Paths: join_paths; Router/Routes: Route, Router and into_routes)
--   and router/matcher.rs (Router/Matcher: Matcher::build and Matcher::find).
-- - Throttle: throttle/store.rs (Throttle/Store: MemoryThrottleStore), throttle/engine.rs
--   (Throttle/Policy: the configuration and Throttler::resolve; Throttle/Engine: decide_one, enforce
--   and check) and throttle/key.rs.
-- - Sse: sse.rs. Sse/Event is the encoding of an event, Sse/Body the polling of a stream and the
--   connection cap; Sse/Wire is a client of the event-stream format, as a description to prove
--   against.
-- - Middleware: middleware/mod.rs (Middleware/Chain: Next::run, resolve_duplicates), cors.rs
--   (Middleware/Cors), trusted_host.rs, proxy_headers.rs and https_redirect.rs (Middleware/Hosts),
--   body_limit.rs (Middleware/BodyLimit), request_id.rs and security_headers.rs
--   (Middleware/Headers).
-- - Realtime: realtime.rs, the names and references of a hub; the queues of tokio's channels are not
--   modelled.
-- - App: app.rs, service.rs, hooks.rs and lifespan.rs. App/Lifecycle is serve_listener with
--   run_startup, run_shutdown and the cells of lifespans; App/World is what a running application
--   holds, and App/Dispatch is AppInner::handle, dispatch and render_error.
--   App/State is the state map of state.rs, and App/Builder the builder App with App::build
--   (App/Builder/Setup: its setters).
-- - Server: server.rs. Server/Config is the tuning of HTTP/1 and HTTP/2, Server/Connections the accept
--   loop, IdleTimeoutStream and the drain at shutdown.
-- - Macros: crates/tork-macros/src/common.rs, parse_size and parse_duration_ms.
-- - OpenApi: crates/tork-openapi/src. OpenApi/Document is OpenApi with build_document of spec.rs,
--   OpenApi/Channels AsyncApi of asyncapi.rs, OpenApi/Names what paths are called there,
--   OpenApi/Escape sanitize_doc_text and html_escape, OpenApi/Serving the routes that serve the
--   documents, with docs.rs.
-- - Multipart: multipart.rs. Multipart/Form is MultipartForm::parse with its limits,
--   Multipart/Form/Taking the take_ functions, Multipart/Spool the uploaded files,
--   Multipart/Rules the rules for them, Multipart/Paths where they may be saved.
-- - Ws: ws.rs. Ws/Message is the messages and close codes, Ws/Limiter the connections of an address,
--   Ws/Handshake __ws_handshake with validate_origin, Ws/Connection WebSocketConn.
-- - Cache: cache/handle.rs over the interface of cache/store.rs.
-- - Instances: concrete functions for the parameters, for the tests.
-- - Extract: extract/body.rs (the depth guard and the capped read), the capped body of body.rs, and
--   the bearer token of extract/header.rs (Extract/Bearer).
-- - Security: security.rs, the comparison of secrets.
--
-- How state is modelled. A mutex-protected map is its contents, passed through each call in the
-- order of the calls. A clock that a call reads is an argument of the call, and so is whether a timer
-- has fired. A stream or a body is the script of what its polls answer. A handler is a function from
-- a request and a state that the handlers share, so that a theorem can say that a handler was not
-- run. In App the program's own code (handlers, hooks, lifespans) is a parameter, the run of the
-- lifecycle is the trace of its steps. While a request is served, handlers, hooks and exception
-- handlers may panic; a panic that leaves the boundary is a flag of the state, behind which none of
-- them runs. In the lifecycle steps fail with errors, and a panic in a lifespan is not modelled.
--
-- What other crates do is a parameter: `TempFiles` (tempfile: what is written lies behind what is
-- there), the script of the parts that multer reads, `Tungstenite` (close codes are numbers), `Uris`
-- (the parts of a URI), `Matchit` (matchit: a match is one of the inserted patterns, and over patterns
-- with a leading slash only paths with one are matched), `Http` (http: the header map keeps the last
-- value that was inserted for a name), `StatusApi` (http: status codes from 100 to 999), `Networks`
-- (ipnet), `Json` (serde_json's values: a map keeps the last value of a key), `Schemas` (schemars: a
-- schema function takes the generator on), `Types` (the types of a program, by `TypeId`), `Floats`
-- (f64: whole numbers up to 2^53 compare exactly), and serde_json's functions. Each test module
-- instantiates its parameters with concrete functions.
--
-- Numbers are natural numbers. Moments and durations are nanoseconds without the upper limits of
-- `Instant` and `u64`; sizes are below 2^64 and their sums do not overflow, and where the code wraps
-- or saturates the model does so too. All loops are recursion on the list they run over. The
-- decimal digits of a number use as much fuel as the number, which is more than its digits. `frames`
-- in Sse/Draining counts polls, and its theorem says how many are enough.
--
-- Not modelled: the Redis backends, sockets and TLS, which are I/O over other crates; what the
-- procedural macros generate; the middlewares that compress, time out and trace; the extractors of
-- paths and queries; logging; the test client; the store of the cache in memory; and settings.
pub mod Base
pub mod Error
pub mod Throttle
pub mod Router
pub mod Sse
pub mod Middleware
pub mod Extract
pub mod Realtime
pub mod App
pub mod Multipart
pub mod Ws
pub mod Cache
pub mod Security
pub mod Server
pub mod OpenApi
pub mod Macros
pub mod Instances
