-- ===== src/OpenApi/Tests.antt =====
-- Tests of the documents, and their theorems at concrete inputs.
use tork_framework.Base.{
  ℕ, ◌+◌, ◌≡◌, refl, true, none, some, List, [], ◌∷◌, map, bytes, text_eq, lower, decimal,
  trim_start, split_on, contains_byte, All,
}
use tork_framework.Instances.{codes}
use tork_framework.Error.{Result}
use tork_framework.Router.Routes.{Route, new_route, summary, response_schema}
use tork_framework.OpenApi.Values.{values, number, end, put, field_of}
use tork_framework.OpenApi.Escape.{sanitize_char, sanitize_doc_text, replace_char, html_escape}
use tork_framework.OpenApi.Escape.Decoding.{
  read_from, reference, IsInert, visible, read_from-html_escape,
}
use tork_framework.OpenApi.Names.{
  operation_id, channel_name, find_char, names_from, placeholder_names,
}
use tork_framework.OpenApi.Names.Placeholders.{
  Part, literal, placeholder, written, names, placeholder_names-written,
}
use tork_framework.OpenApi.Document.{
  Schemas, new_api, bearer_auth, replace_or_push, schema_of, operation, collect, build_document,
}
use tork_framework.OpenApi.Document.Operations.{
  document_operation, latest, made, document_operation-build_document,
}
use tork_framework.OpenApi.Channels.{
  new_async_api, add_route, add_stream, add_socket, collect_channels, build_async_document,
}
use tork_framework.OpenApi.Channels.Addresses.{
  channel_address, last_path, channel_address-build_async_document,
}
use tork_framework.OpenApi.Serving.{check_guard, serve_doc, documentation_routes}

-- A generator that counts the schemas it made.
abbrev counting : Schemas values
counting = record {
  Generator = ℕ;
  new_generator = 0;
  run_thunk = λ thunk g. (g + 1, number thunk);
  take_definitions = λ g. end;
}

openapi_model : Unit {0}
unfolding text_eq lower decimal trim_start split_on contains_byte put field_of sanitize_char
    sanitize_doc_text replace_char html_escape read_from reference operation_id channel_name
    find_char names_from placeholder_names written names replace_or_push schema_of operation collect
    build_document latest made add_route add_stream add_socket collect_channels build_async_document
    last_path
openapi_model = tt

escape_tests :
    (html_escape (bytes "a<b & 'c'") ≡ bytes "a&lt;b &amp; &#x27;c&#x27;")
    × (sanitize_doc_text (9 ∷ 7 ∷ bytes "`") ≡ 9 ∷ 32 ∷ bytes "&#x60;")
unfolding openapi_model
escape_tests = (refl, refl)

read_from-html_escape_example :
    (read_from 0 (html_escape (bytes "<b>&amp;")) ≡ bytes "<b>&amp;")
    × All IsInert (html_escape (bytes "<b>&amp;"))
    × (read_from 0 (sanitize_doc_text (bytes "<b>&amp;")) ≡ map visible (bytes "<b>&amp;"))
    × All IsInert (sanitize_doc_text (bytes "<b>&amp;"))
read_from-html_escape_example = read_from-html_escape (bytes "<b>&amp;")

abbrev file_path : List Part
file_path =
    literal (bytes "/users/")
    ∷ placeholder (bytes "id")
    ∷ literal (bytes "/files/")
    ∷ placeholder (bytes "*rest")
    ∷ []

-- Two paths may have one id, and one channel.
name_tests :
    (placeholder_names (bytes "/a/{b}/{c") ≡ bytes "b" ∷ [])
    × (operation_id (bytes "get") (bytes "/users/{id}") ≡ bytes "get_users__id_")
    × (operation_id (bytes "get") (bytes "/a/b") ≡ operation_id (bytes "get") (bytes "/a_b"))
    × (channel_name (bytes "/chat/{room}") ≡ bytes "chat_room")
    × (channel_name (bytes "/") ≡ bytes "root")
    × (channel_name (bytes "/a/b") ≡ channel_name (bytes "/a_b"))
unfolding openapi_model
name_tests = (refl, refl, refl, refl, refl, refl)

placeholder_names-written_example :
    placeholder_names (written file_path) ≡ bytes "id" ∷ bytes "rest" ∷ []
unfolding openapi_model
placeholder_names-written_example =
    placeholder_names-written file_path (refl, (refl, (refl, (refl, tt))))

abbrev users : Route
users = summary (bytes "List") (new_route (bytes "GET") (bytes "/users") 1)

abbrev newer_users : Route
newer_users = summary (bytes "Newer") users

abbrev schema_route : Route
schema_route = response_schema 7 (new_route (bytes "POST") (bytes "/users") 2)

document_operation-build_document_example :
    document_operation values (bytes "/users") (bytes "get") (
      build_document values codes counting
        (bearer_auth values (new_api values))
        (users ∷ schema_route ∷ newer_users ∷ []))
    ≡ latest values
        (bytes "/users")
        (bytes "get")
        (made values codes counting (users ∷ schema_route ∷ newer_users ∷ []) 0)
document_operation-build_document_example =
    document_operation-build_document values codes counting (bearer_auth values (new_api values))
      (users ∷ schema_route ∷ newer_users ∷ []) (bytes "/users") (bytes "get")

-- A stream, and a route that is none.
abbrev events : Route
events = record users { path = bytes "/a/b"; meta = record users.meta { streaming = true } }

channel_address-build_async_document_example :
    channel_address values
      (bytes "a_b")
      (build_async_document values counting new_async_api (users ∷ events ∷ []))
    ≡ some (bytes "/a/b")
unfolding openapi_model
channel_address-build_async_document_example =
    channel_address-build_async_document values counting new_async_api (users ∷ events ∷ [])
      (bytes "a_b")

guard_test :
    (map
        (λ d. serve_doc d.1 3)
        (documentation_routes values {C = ℕ} 1 2
          (λ v. none)
          codes
          counting
          (new_api values)
          (some (λ c. true))
          [])
      ≡ Result.ok (record { status = 200; content_type = bytes "application/json"; content = [] })
        ∷ [])
unfolding serve_doc check_guard documentation_routes
guard_test = refl
