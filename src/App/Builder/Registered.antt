-- ===== src/App/Builder/Registered.antt =====
-- crates/tork-core/src/app.rs: which routes a built application answers with.
use tork_framework.Base.{◌≡◌, ap, ◌∙◌, sym, Text}
use tork_framework.Error.{ok, >>=-eq-ok, ok-injective}
use tork_framework.Router.Matcher.{Matchit, build, find}
use tork_framework.Router.Matcher.Safety.{Answers, find-build}
use tork_framework.Middleware.Http.{Http}
use tork_framework.Middleware.Chain.{resolve_duplicates}
use tork_framework.App.World.{World}
use tork_framework.App.Lifecycle.{validate_lifecycle}
use tork_framework.App.Builder.{Values, App, Built, phases, registered, built, build_app}

module _ (vs : Values) (h : Http) (U : Type 0) (mi : Matchit) where
  -- The parts of a build that went well.
  pub build_app-ok :
      (a : App vs h U) (b : Built vs h U)
      → build_app vs h U mi a ≡ ok b
      → (validate_lifecycle (phases vs h U a) ≡ ok tt)
        × (build mi (registered vs h U a) ≡ ok b.inner.matcher)
        × (resolve_duplicates h (World U) a.middleware ≡ ok b.inner.middleware)
        × (b ≡ built vs h U a b.inner.matcher b.inner.middleware)
  unfolding build_app
  build_app-ok a b e =
      let (u, valid, e1) = >>=-eq-ok (validate_lifecycle (phases vs h U a)) _ e in
      let (m, matched, e2) = >>=-eq-ok (build mi (registered vs h U a)) _ e1 in
      let (ms, resolved, e3) = >>=-eq-ok (resolve_duplicates h (World U) a.middleware) _ e2 in
      let q : built vs h U a m ms ≡ b = ok-injective e3 in
      (
        valid,
        matched ∙ ap (λ c. ok c.inner.matcher) q,
        resolved ∙ ap (λ c. ok c.inner.middleware) q,
        sym q ∙ ap (λ c. built vs h U a c.inner.matcher c.inner.middleware) q,
      )

  -- If an application is built, then its lifecycle is valid, its middlewares are the resolved ones,
  -- and each request is answered with a route of a router or of a documentation provider that is
  -- registered for its method, with 405 or with 404, and never by an index out of range.
  pub find-build_app :
      (a : App vs h U) (b : Built vs h U) (method path : Text)
      → build_app vs h U mi a ≡ ok b
      → Answers (registered vs h U a) method (find mi b.inner.matcher method path)
        × (resolve_duplicates h (World U) a.middleware ≡ ok b.inner.middleware)
        × (validate_lifecycle (phases vs h U a) ≡ ok tt)
  find-build_app a b method path e =
      let (valid, matched, resolved, same) = build_app-ok a b e in
      (find-build mi (registered vs h U a) b.inner.matcher method path matched, resolved, valid)
