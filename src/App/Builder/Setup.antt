-- ===== src/App/Builder/Setup.antt =====
-- crates/tork-core/src/app.rs: the setters of the builder `App`.
use tork_framework.Base.{ℕ, ◌++◌, Bool, true, false, none, some, List, [], ◌∷◌, if◌then◌else◌, ◌==◌}
use tork_framework.Router.Routes.{Route, Router, new_router, route}
use tork_framework.Middleware.Http.{Http}
use tork_framework.Middleware.Chain.{Middleware}
use tork_framework.Throttle.Policy.{Throttle, new}
use tork_framework.Ws.Config.{WebSocketConfig}
use tork_framework.Multipart.Config.{UploadConfig}
use tork_framework.Server.Config.{Http1Config, Http2Config}
use tork_framework.App.State.{insert_state}
use tork_framework.App.Lifecycle.{new_cell}
use tork_framework.App.World.{World}
use tork_framework.App.Builder.{Values, App, app_types, of_program}

-- `HashMap::insert`, by the id of the error's type.
unfoldable pub put_handler : (type_id handler : ℕ) → List (ℕ × ℕ) → List (ℕ × ℕ)
put_handler t i [] = (t, i) ∷ []
put_handler t i ((u, j) ∷ hs) = if u == t then (t, i) ∷ hs else (u, j) ∷ put_handler t i hs

module _ (vs : Values) (h : Http) (U : Type 0) where
  abbrev pub state : (n : ℕ) → vs.Program n → App vs h U → App vs h U
  state n v a = record a { state = insert_state (app_types vs) (of_program n) v a.state }

  abbrev pub throttle : Throttle → App vs h U → App vs h U
  throttle config a = record a { throttler = some (new config) }

  abbrev pub lifespan : ℕ → App vs h U → App vs h U
  lifespan id a = record a { lifespan = a.lifespan ++ new_cell id ∷ [] }

  abbrev pub exception_handler : (type_id handler : ℕ) → App vs h U → App vs h U
  exception_handler t i a = record a { exception_handlers = put_handler t i a.exception_handlers }

  abbrev pub logger : Bool → App vs h U → App vs h U
  logger v a = record a { request_logs = some v }

  abbrev pub cache : vs.CacheHandle → App vs h U → App vs h U
  cache v a = record a { cache = some v }

  abbrev pub openapi : (List Route → List Route) → App vs h U → App vs h U
  openapi v a = record a { openapi = some v }

  abbrev pub asyncapi : (List Route → List Route) → App vs h U → App vs h U
  asyncapi v a = record a { asyncapi = some v }

  abbrev pub include_router : Router → App vs h U → App vs h U
  include_router v a = record a { routers = a.routers ++ v ∷ [] }

  abbrev pub middleware : Middleware h (World U) → App vs h U → App vs h U
  middleware v a = record a { middleware = a.middleware ++ v ∷ [] }

  abbrev pub on_startup : ℕ → App vs h U → App vs h U
  on_startup v a = record a { on_startup = a.on_startup ++ v ∷ [] }

  abbrev pub on_shutdown : ℕ → App vs h U → App vs h U
  on_shutdown v a = record a { on_shutdown = a.on_shutdown ++ v ∷ [] }

  abbrev pub on_ready : ℕ → App vs h U → App vs h U
  on_ready v a = record a { on_ready = a.on_ready ++ v ∷ [] }

  abbrev pub on_request : ℕ → App vs h U → App vs h U
  on_request v a = record a { on_request = a.on_request ++ v ∷ [] }

  abbrev pub on_response : ℕ → App vs h U → App vs h U
  on_response v a = record a { on_response = a.on_response ++ v ∷ [] }

  abbrev pub on_error : ℕ → App vs h U → App vs h U
  on_error v a = record a { on_error = a.on_error ++ v ∷ [] }

  abbrev pub on_validation_error : ℕ → App vs h U → App vs h U
  on_validation_error v a = record a { on_validation_error = a.on_validation_error ++ v ∷ [] }

  abbrev pub on_panic : ℕ → App vs h U → App vs h U
  on_panic v a = record a { on_panic = a.on_panic ++ v ∷ [] }

  abbrev pub websocket_config : WebSocketConfig → App vs h U → App vs h U
  websocket_config v a = record a { ws_config = some v }

  abbrev pub max_sse_connections : ℕ → App vs h U → App vs h U
  max_sse_connections v a = record a { max_sse_connections = some v }

  abbrev pub idle_timeout : ℕ → App vs h U → App vs h U
  idle_timeout v a = record a { idle_timeout = some v }

  abbrev pub reuse_port : Bool → App vs h U → App vs h U
  reuse_port v a = record a { reuse_port = v }

  abbrev pub max_request_body_size : ℕ → App vs h U → App vs h U
  max_request_body_size v a = record a { max_request_body_size = some v }

  abbrev pub header_read_timeout : ℕ → App vs h U → App vs h U
  header_read_timeout v a = record a { header_read_timeout = some v }

  abbrev pub without_header_read_timeout : App vs h U → App vs h U
  without_header_read_timeout a = record a { header_read_timeout = none }

  abbrev pub http1 : Http1Config → App vs h U → App vs h U
  http1 v a = record a { http1_config = some v }

  abbrev pub http2 : Http2Config → App vs h U → App vs h U
  http2 v a = record a { http2_config = some v }

  abbrev pub on_ws_connect : ℕ → App vs h U → App vs h U
  on_ws_connect v a = record a { on_ws_connect = a.on_ws_connect ++ v ∷ [] }

  abbrev pub on_ws_disconnect : ℕ → App vs h U → App vs h U
  on_ws_disconnect v a = record a { on_ws_disconnect = a.on_ws_disconnect ++ v ∷ [] }

  abbrev pub upload_config : UploadConfig → App vs h U → App vs h U
  upload_config v a = record a { upload_config = some v }

  abbrev pub catch_panics : App vs h U → App vs h U
  catch_panics a = record a { catch_panics = true }

  abbrev pub propagate_panics : App vs h U → App vs h U
  propagate_panics a = record a { catch_panics = false }

  abbrev pub include : Route → App vs h U → App vs h U
  include r = include_router (route r new_router)
