-- ===== src/App/Builder.antt =====
-- crates/tork-core/src/app.rs: the builder `App` and `App::build`. The application is built without
-- the feature `tls`. A cache is a value of the parameter `CacheHandle`, and a program's own types of
-- state are the parameter `Program`, by number. Of a logger's configuration only the switch for
-- request logs is read here.
pub mod Registered
pub mod Kept
pub mod Setup
mod Tests
use tork_framework.Base.{
  ℕ, ◌≡◌, ◌++◌, ◌*◌, ◌||◌, Bool, true, false, not, Option, none, some, List, [], ◌∷◌, Text, bytes,
  is_empty, if◌then◌else◌, unwrap_or, and_then,
}
use native.Mathlib.Decide.{ℕ_discrete}
use tork_framework.Error.{Result, ok, err, ◌>>=◌}
use tork_framework.Router.Routes.{Route, Router, new_router, into_routes, route}
use tork_framework.Router.Matcher.{Matchit, Matcher, build}
use tork_framework.Middleware.Http.{Http}
use tork_framework.Middleware.Chain.{Middleware, resolve_duplicates}
use tork_framework.Throttle.Policy.{Throttle, Throttler}
use tork_framework.Throttle.Policy
use tork_framework.Ws.Config.{WebSocketConfig}
use tork_framework.Multipart.Config.{UploadConfig}
use tork_framework.Server.Config.{Http1Config, Http2Config}
use tork_framework.App.State.{Types, StateMap, insert_state}
use tork_framework.App.Lifecycle.{Cell, new_cell, Phases, validate_lifecycle}
use tork_framework.App.World.{World, AppInner}

-- The types of the framework that a build may put into the state, and those of a program.
pub data StateType : Type 0 where
  ws_shutdown sse_limiter app_body_limit ws_ip_limiter app_ws_config ws_hooks : StateType
  app_upload_config cache_handle throttle_engine : StateType
  of_program : ℕ → StateType

pub StateType-discrete : Discrete StateType
StateType-discrete = hlevel (ℕ_discrete)

pub record WsHooks : Type 0 where
  pub connect : List ℕ
  pub disconnect : List ℕ

-- What a program brings: its types of state with their names, and the handle of a cache.
pub record Values : Type 1 where
  pub Program : ℕ → Type 0
  pub type_name : StateType → Text
  pub CacheHandle : Type 0

module _ (vs : Values) where
  -- A limiter is its limit: what it counts begins with none.
  abbrev pub ValueOf : StateType → Type 0
  ValueOf ws_shutdown = Unit {0}
  ValueOf sse_limiter = ℕ
  ValueOf app_body_limit = ℕ
  ValueOf ws_ip_limiter = ℕ
  ValueOf app_ws_config = WebSocketConfig
  ValueOf ws_hooks = WsHooks
  ValueOf app_upload_config = UploadConfig
  ValueOf cache_handle = vs.CacheHandle
  ValueOf throttle_engine = Throttler
  ValueOf (of_program n) = vs.Program n

  abbrev pub app_types : Types
  app_types = record {
    TypeId = StateType;
    El = ValueOf;
    same = StateType-discrete;
    type_name = vs.type_name;
  }

  module _ (h : Http) (U : Type 0) where
    pub record App : Type 0 where
      pub state : StateMap app_types
      pub routers : List Router
      pub openapi : Option (List Route → List Route)
      pub asyncapi : Option (List Route → List Route)
      pub middleware : List (Middleware h (World U))
      pub lifespan : List Cell
      pub on_startup : List ℕ
      pub on_shutdown : List ℕ
      pub on_ready : List ℕ
      pub on_request : List ℕ
      pub on_response : List ℕ
      pub on_error : List ℕ
      pub on_validation_error : List ℕ
      pub on_panic : List ℕ
      pub catch_panics : Bool
      pub exception_handlers : List (ℕ × ℕ)
      pub ws_config : Option WebSocketConfig
      pub on_ws_connect : List ℕ
      pub on_ws_disconnect : List ℕ
      pub upload_config : Option UploadConfig
      pub request_logs : Option Bool
      pub cache : Option vs.CacheHandle
      pub throttler : Option Throttler
      pub max_sse_connections : Option ℕ
      pub max_request_body_size : Option ℕ
      pub reuse_port : Bool
      pub idle_timeout : Option ℕ
      pub header_read_timeout : Option ℕ
      pub http1_config : Option Http1Config
      pub http2_config : Option Http2Config

    -- `AppInner`: the part that dispatching reads, and the rest.
    pub record Built : Type 0 where
      pub inner : AppInner h U
      pub app_state : StateMap app_types
      pub logs_requests : Bool
      pub idle_timeout : Option ℕ
      pub header_read_timeout : Option ℕ
      pub http1_config : Option Http1Config
      pub http2_config : Option Http2Config

    abbrev pub default_header_read_timeout : ℕ
    default_header_read_timeout = 30 * 1000000000

    abbrev pub new_app : App
    new_app = record {
      state = [];
      routers = [];
      openapi = none;
      asyncapi = none;
      middleware = [];
      lifespan = [];
      on_startup = [];
      on_shutdown = [];
      on_ready = [];
      on_request = [];
      on_response = [];
      on_error = [];
      on_validation_error = [];
      on_panic = [];
      catch_panics = true;
      exception_handlers = [];
      ws_config = none;
      on_ws_connect = [];
      on_ws_disconnect = [];
      upload_config = none;
      request_logs = none;
      cache = none;
      throttler = none;
      max_sse_connections = none;
      max_request_body_size = none;
      reuse_port = false;
      idle_timeout = none;
      header_read_timeout = some default_header_read_timeout;
      http1_config = none;
      http2_config = none;
    }

    abbrev pub phases : App → Phases
    phases a = record {
      lifespan = a.lifespan;
      on_startup = a.on_startup;
      on_shutdown = a.on_shutdown;
      on_ready = a.on_ready;
    }

    -- The value of a field, if it is set.
    abbrev pub insert_some :
        (t : StateType) → Option (ValueOf t) → StateMap app_types → StateMap app_types
    insert_some t none m = m
    insert_some t (some v) m = insert_state app_types t v m

    abbrev pub ip_limit : Option WebSocketConfig → Option ℕ
    ip_limit c = and_then c (λ w. w.max_connections_per_ip)

    abbrev pub hooks_of : List ℕ → List ℕ → Option WsHooks
    hooks_of connect disconnect =
        if not (is_empty connect) || not (is_empty disconnect)
        then some (record { connect = connect; disconnect = disconnect })
        else none

    -- What a build puts into the state, in order.
    abbrev pub Setting : Type 0
    Setting = (t : StateType) × Option (ValueOf t)

    abbrev pub settings : App → List Setting
    settings a =
        (ws_shutdown, some tt)
        ∷ (sse_limiter, a.max_sse_connections)
        ∷ (app_body_limit, a.max_request_body_size)
        ∷ (ws_ip_limiter, ip_limit a.ws_config)
        ∷ (app_ws_config, a.ws_config)
        ∷ (ws_hooks, hooks_of a.on_ws_connect a.on_ws_disconnect)
        ∷ (app_upload_config, a.upload_config)
        ∷ (cache_handle, a.cache)
        ∷ (throttle_engine, a.throttler)
        ∷ []

    abbrev pub fill : List Setting → StateMap app_types → StateMap app_types
    fill [] m = m
    fill ((t, o) ∷ ss) m = fill ss (insert_some t o m)

    unfoldable pub filled_state : App → StateMap app_types
    filled_state a = fill (settings a) a.state

    abbrev pub flattened : List Router → List Route
    flattened [] = []
    flattened (r ∷ rs) = into_routes r ++ flattened rs

    -- The routes, and behind them those that a provider adds for them.
    abbrev pub documented : Option (List Route → List Route) → List Route → List Route
    documented none routes = routes
    documented (some provider) routes = routes ++ provider routes

    unfoldable pub registered : App → List Route
    registered a = documented a.asyncapi (documented a.openapi (flattened a.routers))

    abbrev pub built : App → Matcher → List (Middleware h (World U)) → Built
    built a matcher middleware = record {
      inner = record {
        matcher = matcher;
        middleware = middleware;
        on_request = a.on_request;
        on_response = a.on_response;
        on_error = a.on_error;
        on_validation_error = a.on_validation_error;
        on_panic = a.on_panic;
        catch_panics = a.catch_panics;
        exception_handlers = a.exception_handlers;
      };
      app_state = filled_state a;
      logs_requests = unwrap_or a.request_logs true;
      idle_timeout = a.idle_timeout;
      header_read_timeout = a.header_read_timeout;
      http1_config = a.http1_config;
      http2_config = a.http2_config;
    }

    unfoldable pub build_app : Matchit → App → Result Built
    build_app mi a = do
      u ← validate_lifecycle (phases a)
      matcher ← build mi (registered a)
      middleware ← resolve_duplicates h (World U) a.middleware
      ok (built a matcher middleware)
