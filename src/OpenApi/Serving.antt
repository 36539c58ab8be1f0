-- ===== src/OpenApi/Serving.antt =====
-- crates/tork-openapi/src/: the routes that serve the documents, `documentation_routes` with
-- `spec_route` and `docs_route`, the guard in front of them, and the page of docs.rs. A route's
-- handler is a number, so each route comes with what its handler serves.
pub mod Hidden
use tork_framework.Base.{
  ℕ, ◌++◌, Bool, true, false, Option, none, some, List, [], ◌∷◌, map, Text, bytes, unwrap_or,
  join_with,
}
use tork_framework.Error.{StatusApi, Result, ok, err, not_found_error}
use tork_framework.Router.Routes.{Route, new_route, summary}
use tork_framework.OpenApi.Json.{Json}
use tork_framework.OpenApi.Escape.{html_escape}
use tork_framework.OpenApi.Document.{Schemas, OpenApi, build_document}
use tork_framework.OpenApi.Channels.{AsyncApi, build_async_document}

-- Over the request contexts `C`.
abbrev pub DocGuard : Type 0 → Type 0
DocGuard C = C → Bool

abbrev pub denied : Bool → Result (Unit {0})
denied true = ok tt
denied false = err (not_found_error (bytes "not found"))

unfoldable pub check_guard : {C : Type 0} → Option (DocGuard C) → C → Result (Unit {0})
check_guard none ctx = ok tt
check_guard (some guard) ctx = denied (guard ctx)

pub record Page : Type 0 where
  pub status : ℕ
  pub content_type : Text
  pub content : Text

-- What a documentation handler holds.
pub record Doc (C : Type 0) : Type 0 where
  pub content_type : Text
  pub content : Text
  pub guard : Option (DocGuard C)

abbrev pub page_of : {C : Type 0} → Doc C → Result (Unit {0}) → Result Page
page_of d (err e) = err e
page_of d (ok u) = ok (record { status = 200; content_type = d.content_type; content = d.content })

unfoldable pub serve_doc : {C : Type 0} → Doc C → C → Result Page
serve_doc d ctx = page_of d (check_guard d.guard ctx)

abbrev pub scalar_cdn_url : Text
scalar_cdn_url =
    bytes "https://cdn.jsdelivr.net/npm/@scalar/api-reference@1.59.3/dist/browser/standalone.min.js"

abbrev pub scalar_sri : Text
scalar_sri = bytes "sha384-irPuG6Dqh5tfvLv4Yl+FeLzXKTA6CfA5aON/ACBCOuvhKXG8yK4umxZg8E7rBxQf"

-- ` name="value"`
abbrev pub attribute : (name value : Text) → Text
attribute name value = 32 ∷ name ++ bytes "=" ++ 34 ∷ value ++ 34 ∷ []

-- The lines of the page.
abbrev pub page_lines : (title spec_url : Text) → List Text
page_lines title spec_url =
    bytes "<!doctype html>"
    ∷ bytes "<html>"
    ∷ bytes "<head>"
    ∷ (bytes "  <meta" ++ attribute (bytes "charset") (bytes "utf-8") ++ bytes " />")
    ∷ (bytes "  <meta"
        ++ attribute (bytes "name") (bytes "viewport")
        ++ attribute (bytes "content") (bytes "width=device-width, initial-scale=1")
        ++ bytes " />")
    ∷ (bytes "  <title>" ++ title ++ bytes "</title>")
    ∷ bytes "</head>"
    ∷ bytes "<body>"
    ∷ (bytes "  <script"
        ++ attribute (bytes "id") (bytes "api-reference")
        ++ attribute (bytes "data-url") spec_url
        ++ bytes "></script>")
    ∷ (bytes "  <script"
        ++ attribute (bytes "src") scalar_cdn_url
        ++ attribute (bytes "integrity") scalar_sri
        ++ attribute (bytes "crossorigin") (bytes "anonymous")
        ++ bytes "></script>")
    ∷ bytes "</body>"
    ∷ bytes "</html>"
    ∷ []
    ∷ []

unfoldable pub render_html : (title spec_url : Text) → Text
render_html title spec_url =
    join_with (10 ∷ []) (page_lines (html_escape title) (html_escape spec_url))

-- The numbers of the handlers, and serde_json's `to_vec`.
module _ (js : Json) {C : Type 0} (spec_handler docs_handler : ℕ)
    (to_vec : js.Value → Option Text) where
  abbrev pub spec_route : (path body : Text) → Option (DocGuard C) → Route × Doc C
  spec_route path body guard = (
    summary (bytes "OpenAPI specification") (new_route (bytes "GET") path spec_handler),
    record { content_type = bytes "application/json"; content = body; guard = guard },
  )

  abbrev pub docs_route : (path title spec_url : Text) → Option (DocGuard C) → Route × Doc C
  docs_route path title spec_url guard = (
    summary (bytes "API documentation") (new_route (bytes "GET") path docs_handler),
    record {
      content_type = bytes "text/html; charset=utf-8";
      content = render_html title spec_url;
      guard = guard;
    },
  )

  abbrev pub docs_routes : OpenApi js → Option Text → Option (DocGuard C) → List (Route × Doc C)
  docs_routes a none guard = []
  docs_routes a (some path) guard = docs_route path a.title a.json_path guard ∷ []

  unfoldable pub documentation_routes :
      StatusApi → Schemas js → OpenApi js → Option (DocGuard C) → List Route → List (Route × Doc C)
  documentation_routes sa sc a guard registered =
      spec_route a.json_path (unwrap_or (to_vec (build_document js sa sc a registered)) []) guard
      ∷ docs_routes a a.docs_path guard

  abbrev pub async_spec_route : (path body : Text) → Route × Doc C
  async_spec_route path body = (
    summary (bytes "AsyncAPI specification") (new_route (bytes "GET") path spec_handler),
    record { content_type = bytes "application/json"; content = body; guard = none },
  )

  unfoldable pub async_documentation_routes :
      Schemas js → AsyncApi → List Route → List (Route × Doc C)
  async_documentation_routes sc a registered =
      async_spec_route a.json_path (unwrap_or (to_vec (build_async_document js sc a registered)) [])
      ∷ []
