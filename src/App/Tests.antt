-- ===== src/App/Tests.antt =====
-- Tests of a running application, and its theorems at concrete inputs.
use tork_framework.Base.{
  ℕ, zero, suc, Bool, ◌+◌, ◌≡◌, ◌↔◌, refl, ◌++◌, true, false, Option, none, some, List, [], ◌∷◌,
  map, Text, bytes, text_eq, unwrap_or, ◌==◌, if◌then◌else◌, lookup, insert, contains_byte,
  starts_with,
}
use tork_framework.Instances.{pairs, codes, whole_paths, position, exactly}
use tork_framework.Error.{
  Error, Cause, ok, err, error, internal_error, bad_request, with_source, is_validation, kind_code,
}
use tork_framework.Router.Routes.{Route, new_route}
use tork_framework.Router.Matcher.{
  Matcher, build, build_from, register, find, find_in, at, found, Params, normalized, collapsed,
  has_double_slash,
}
use tork_framework.Middleware.Http.{Request, Response}
use tork_framework.Middleware.Chain.{Middleware, allow, run}
use tork_framework.App.World.{
  World, Code, RequestInfo, panic_message, message, answered, Rendering, AppInner,
}
use tork_framework.App.World
use tork_framework.App.Dispatch.{
  fire_all, go_on, dispatch, handle, fire_error, render_error, panic_response,
}
use tork_framework.App.Dispatch.Observing.{
  Returns, Answers, Tells, told_to, result_told, known, dispatch-Answers,
}
use tork_framework.App.Dispatch.Answering.{
  CanTell, dispatch-told, GoesOnWithin, dispatch-panic_message, render_error-with_source,
}
use tork_framework.App.Dispatch.Chaining.{IsAnswered, dispatch-IsAnswered, Wraps, handle-Wraps}
use tork_framework.App.Lifecycle.{Program, Phases, new_cell, serve}
use tork_framework.App.Lifecycle.Nesting.{replay}
use tork_framework.App.Lifecycle.Stack.{LeavesUp, serve-replay}

-- Lifespans that start, over a socket that cannot be bound, or that can.
abbrev binding : Option Error → Program
binding o = record { start = λ t i. none; stop = λ t i. none; hook = λ t s. none; bind = λ t. o }

abbrev two_lifespans : Phases
two_lifespans = record {
  lifespan = map new_cell (7 ∷ 8 ∷ []);
  on_startup = [];
  on_shutdown = [];
  on_ready = 5 ∷ [];
}

abbrev port_taken : Program
port_taken = binding (some (internal_error (bytes "failed to bind")))

serve-replay_example :
    (up : List ℕ) × (replay (serve port_taken none two_lifespans []).0.1 [] ≡ some up)
    × LeavesUp port_taken (7 ∷ 8 ∷ []) (serve port_taken none two_lifespans []).1 up
serve-replay_example = serve-replay port_taken two_lifespans 7 (8 ∷ []) none refl

-- Handler 1 answers, handler 2 fails with a cause, and any other one panics.
abbrev page : Response pairs
page = record { status = 200; headers = []; content = bytes "ok" }

abbrev io_error : Cause
io_error = record { type_id = 7; text = bytes "disk full" }

abbrev failed : Error
failed = error bad_request (bytes "no such file")

abbrev outcome : ℕ → World.Outcome pairs
outcome i =
    if i == 1
    then answered (ok page)
    else if i == 2
    then answered (err (with_source io_error failed))
    else World.panicked (message (bytes "boom"))

abbrev shop : Code pairs ℕ
shop = record {
  hook = λ i ev n. (n + 1, false);
  handler = λ i r q n. (n + 1, outcome i);
  exception = λ id c i n. (n, some page);
}

shop-Returns : Returns shop
shop-Returns = (λ i ev n. refl, λ id c i n. (page, refl))

abbrev rendering : Rendering
rendering = record {
  to_json = λ b. none;
  trace_id = bytes "0af7651916cd43dd8448eb211c80319c";
  timestamp = bytes "2026-01-01T00:00:00Z";
  uri_path = λ o. unwrap_or o (bytes "/");
}

abbrev failing : Route
failing = record (new_route (bytes "GET") (bytes "/users") 2) {
  hooks = record { request = 10 ∷ []; response = 11 ∷ 12 ∷ []; error = 13 ∷ []; validation = [] };
}

abbrev broken : Route
broken = new_route (bytes "GET") (bytes "/users") 3

abbrev table : Route → Matcher
table r = record {
  by_method = (bytes "GET", (bytes "/users", 0) ∷ []) ∷ [];
  all_paths = (bytes "/users", tt) ∷ [];
  routes = r ∷ [];
}

abbrev pass : Middleware pairs (World ℕ)
pass = record { name = bytes "Pass"; duplicate_policy = allow; handle = λ next. next }

abbrev serving : Route → AppInner pairs ℕ
serving r = record {
  matcher = table r;
  middleware = pass ∷ [];
  on_request = 1 ∷ [];
  on_response = 2 ∷ [];
  on_error = 3 ∷ [];
  on_validation_error = [];
  on_panic = 4 ∷ [];
  catch_panics = true;
  exception_handlers = (7, 0) ∷ [];
}

abbrev get_users : Request pairs
get_users = record {
  method = bytes "GET";
  uri_scheme = none;
  path_and_query = some (bytes "/users");
  headers = [];
  peer = none;
  scheme = none;
  frames = [];
}

abbrev fresh : World ℕ
fresh = record { user = 0; fired = []; unwound = false }

app_model : Unit {0}
unfolding is_validation kind_code dispatch handle go_on fire_error fire_all build build_from
    register find find_in at exactly position lookup insert text_eq contains_byte starts_with
    normalized collapsed has_double_slash run
app_model = tt

routing_tests :
    (build whole_paths (failing ∷ []) ≡ ok (table failing))
    × (build whole_paths (broken ∷ []) ≡ ok (table broken))
    × (find whole_paths (table failing) (bytes "GET") (bytes "/users") ≡ found failing [])
    × (find whole_paths (table broken) (bytes "GET") (bytes "/users") ≡ found broken [])
unfolding app_model
routing_tests = (refl, refl, refl, refl)

abbrev known_as : Route → RequestInfo
known_as r = known pairs codes rendering whole_paths shop (serving r) get_users r

dispatch-Answers_example :
    Answers pairs codes rendering whole_paths shop
      (serving failing)
      fresh
      (told_to (10 ∷ []) (World.request_event (known_as failing))
        ++ result_told pairs codes rendering whole_paths shop
            (serving failing)
            (err (with_source io_error failed))
            (known_as failing)
            failing)
      failing
      (known_as failing)
      (dispatch pairs codes rendering whole_paths shop (serving failing) get_users fresh)
unfolding app_model
dispatch-Answers_example =
    dispatch-Answers pairs codes rendering whole_paths shop (serving failing) shop-Returns failing
      [] get_users fresh (err (with_source io_error failed)) refl refl refl refl

can_tell :
    (r : Request pairs) (id : ℕ) (q : Params) (u : ℕ)
    → CanTell pairs codes rendering whole_paths shop (serving broken) (shop.handler id r q u).1
can_tell r id q u = go (id == 1) (id == 2)
  where
    go :
        (a b : Bool)
        → CanTell pairs codes rendering whole_paths shop (serving broken) (
            if a
            then answered (ok page)
            else if b
            then answered (err (with_source io_error failed))
            else World.panicked (message (bytes "boom")))
    go true b = tt
    go false true = tt
    go false false = (bytes "boom", refl)

dispatch-IsAnswered_example :
    IsAnswered pairs codes rendering whole_paths shop
      (serving broken)
      (dispatch pairs codes rendering whole_paths shop (serving broken) get_users fresh)
dispatch-IsAnswered_example =
    dispatch-IsAnswered pairs codes rendering whole_paths shop (serving broken) shop-Returns
      (broken ∷ []) get_users fresh routing_tests.1 refl (can_tell get_users) refl

dispatch-told_example :
    ((dispatch pairs codes rendering whole_paths shop (serving broken) get_users fresh).1
      ≡ some (panic_response pairs codes rendering whole_paths shop (serving broken)))
    × Tells fresh
        ([] ++ (4, World.panic_event (known_as broken) (bytes "boom")) ∷ [])
        (dispatch pairs codes rendering whole_paths shop (serving broken) get_users fresh).0
unfolding app_model
dispatch-told_example =
    dispatch-told pairs codes rendering whole_paths shop (serving broken) shop-Returns broken []
      get_users fresh (message (bytes "boom")) (bytes "boom") refl refl refl refl refl refl

render_error-with_source_example :
    (render_error pairs codes rendering whole_paths shop
      (serving failing)
      (with_source io_error failed)
      (known_as failing)
      none
      fresh).1
    ≡ some page
unfolding app_model
render_error-with_source_example =
    render_error-with_source pairs codes rendering whole_paths shop (serving failing) failed
      io_error 0 (known_as failing) none fresh refl refl

handle-Wraps_example :
    Wraps pairs codes rendering whole_paths shop
      (serving broken)
      get_users
      fresh
      (handle pairs codes rendering whole_paths shop (serving broken) get_users fresh)
handle-Wraps_example =
    handle-Wraps pairs codes rendering whole_paths shop (serving broken) shop-Returns (broken ∷ [])
      get_users fresh routing_tests.1 refl can_tell ((λ next c. c), tt) refl refl

-- A panic message of 1023 letters, a letter of two bytes and one more.
long_message : ℕ → Text
long_message zero = 195 ∷ 169 ∷ b'!' ∷ []
long_message (suc n) = b'a' ∷ long_message n

abbrev fragile : Code pairs ℕ
fragile = record shop { handler = λ i r q n. (n, World.panicked (message (long_message 1023))) }

dispatch-panic_message_example :
    (((dispatch pairs codes rendering whole_paths fragile (serving broken) get_users fresh).1
        ≡ none)
      × ((dispatch pairs codes rendering whole_paths fragile
            (serving broken)
            get_users
            fresh).0.unwound
          ≡ true))
    ↔ GoesOnWithin 1024 (long_message 1023)
dispatch-panic_message_example =
    dispatch-panic_message pairs codes rendering whole_paths fragile (serving broken) shop-Returns
      broken [] get_users fresh (long_message 1023) refl routing_tests.3 refl refl refl

-- A handler that panics before it gives its future is not answered, though the boundary is on.
abbrev early : Code pairs ℕ
early = record shop { handler = λ i r q n. (n, World.panicked_early) }

early_test :
    (dispatch pairs codes rendering whole_paths early (serving broken) get_users fresh).1 ≡ none
unfolding app_model
early_test = refl
