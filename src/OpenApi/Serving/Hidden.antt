-- ===== src/OpenApi/Serving/Hidden.antt =====
-- crates/tork-openapi/src/: what the guard keeps from a request.
use tork_framework.Base.{ℕ, ◌≡◌, refl, false, Option, none, some, List, Text, bytes, All}
use tork_framework.Error.{StatusApi, err, not_found_error}
use tork_framework.Router.Routes.{Route}
use tork_framework.OpenApi.Json.{Json}
use tork_framework.OpenApi.Document.{Schemas, OpenApi}
use tork_framework.OpenApi.Serving.{
  DocGuard, Doc, check_guard, serve_doc, documentation_routes, docs_routes,
}

module _ (js : Json) {C : Type 0} (ctx : C) where
  -- A handler that hides what it holds, as if it were not there.
  abbrev pub IsHidden : Route × Doc C → Type 0
  IsHidden (r, d) = serve_doc d ctx ≡ err (not_found_error (bytes "not found"))

  serve_doc-guard :
      (d : Doc C) (guard : DocGuard C)
      → d.guard ≡ some guard
      → guard ctx ≡ false
      → serve_doc d ctx ≡ err (not_found_error (bytes "not found"))
  unfolding serve_doc check_guard
  serve_doc-guard d guard guarded denies = rw (guarded, denies) refl

  docs_routes-IsHidden :
      (spec docs : ℕ) (to_vec : js.Value → Option Text) (a : OpenApi js) (path : Option Text)
      (guard : DocGuard C)
      → guard ctx ≡ false
      → All IsHidden (docs_routes js spec docs to_vec a path (some guard))
  docs_routes-IsHidden spec docs to_vec a none guard denies = tt
  docs_routes-IsHidden spec docs to_vec a (some path) guard denies =
      (serve_doc-guard _ guard refl denies, tt)

  -- Every documentation route of a guarded application answers a request that the guard denies with
  -- the 404 of a missing page.
  pub documentation_routes-IsHidden :
      (spec docs : ℕ) (to_vec : js.Value → Option Text) (sa : StatusApi) (sc : Schemas js)
      (a : OpenApi js) (guard : DocGuard C) (registered : List Route)
      → guard ctx ≡ false
      → All IsHidden (documentation_routes js spec docs to_vec sa sc a (some guard) registered)
  unfolding documentation_routes
  documentation_routes-IsHidden spec docs to_vec sa sc a guard registered denies = (
    serve_doc-guard _ guard refl denies,
    docs_routes-IsHidden spec docs to_vec a a.docs_path guard denies,
  )
