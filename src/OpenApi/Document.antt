-- ===== src/OpenApi/Document.antt =====
-- crates/tork-openapi/src/spec.rs: the builder `OpenApi` and the document that it makes of the
-- routes. The generator of the crate schemars is the parameter `Schemas`: a schema function is its
-- number, and takes the generator to a new one with a schema.
pub mod Operations
use tork_framework.Base.{
  ℕ, ◌++◌, Bool, true, false, Option, none, some, List, [], ◌∷◌, map, Text, bytes, text_eq,
  if◌then◌else◌, is_empty, lower, decimal, unwrap_or, any,
}
use tork_framework.Error.{StatusApi}
use tork_framework.Router.Routes.{
  Route, RouteMeta, RequestBodyKind, json, form, multipart, SecurityRequirement,
}
use tork_framework.OpenApi.Json.{Json, put_some, put_all, object_of}
use tork_framework.OpenApi.Escape.{sanitize_doc_text}
use tork_framework.OpenApi.Names.{operation_id, placeholder_names}

module _ (js : Json) where
  pub record Schemas : Type 1 where
    pub Generator : Type 0
    pub new_generator : Generator
    pub run_thunk : ℕ → Generator → Generator × js.Value
    pub take_definitions : Generator → js.Map

  -- The configuration; its guard stands in OpenApi/Serving.
  pub record OpenApi : Type 0 where
    pub title : Text
    pub version : Text
    pub description : Option Text
    pub json_path : Text
    pub docs_path : Option Text
    pub security_schemes : List (Text × js.Value)

  abbrev pub new_api : OpenApi
  new_api = record {
    title = bytes "API";
    version = bytes "0.1.0";
    description = none;
    json_path = bytes "/openapi.json";
    docs_path = none;
    security_schemes = [];
  }

  abbrev pub title : Text → OpenApi → OpenApi
  title t a = record a { title = t }

  abbrev pub version : Text → OpenApi → OpenApi
  version t a = record a { version = t }

  abbrev pub description : Text → OpenApi → OpenApi
  description t a = record a { description = some t }

  abbrev pub json_path : Text → OpenApi → OpenApi
  json_path path a = record a { json_path = path }

  abbrev pub docs : Text → OpenApi → OpenApi
  docs path a = record a { docs_path = some path }

  -- The first entry of the name is replaced, or a new one is pushed.
  unfoldable pub replace_or_push : Text → js.Value → List (Text × js.Value) → List (Text × js.Value)
  replace_or_push name v [] = (name, v) ∷ []
  replace_or_push name v ((n, w) ∷ kvs) =
      if text_eq n name then (n, v) ∷ kvs else (n, w) ∷ replace_or_push name v kvs

  abbrev pub security_scheme : Text → js.Value → OpenApi → OpenApi
  security_scheme name scheme a = record a {
    security_schemes = replace_or_push name scheme a.security_schemes;
  }

  abbrev pub bearer_auth : OpenApi → OpenApi
  bearer_auth a =
      security_scheme (bytes "bearerAuth")
        (object_of js (
          (bytes "type", js.string (bytes "http"))
          ∷ (bytes "scheme", js.string (bytes "bearer"))
          ∷ (bytes "bearerFormat", js.string (bytes "JWT"))
          ∷ []))
        a

  abbrev pub api_key_auth : (name header : Text) → OpenApi → OpenApi
  api_key_auth name header a =
      security_scheme name
        (object_of js (
          (bytes "type", js.string (bytes "apiKey"))
          ∷ (bytes "in", js.string (bytes "header"))
          ∷ (bytes "name", js.string header)
          ∷ []))
        a

  abbrev pub sanitized : Option Text → Option js.Value
  sanitized none = none
  sanitized (some t) = some (js.string (sanitize_doc_text t))

  abbrev pub tags_value : List Text → Option js.Value
  tags_value [] = none
  tags_value (t ∷ ts) = some (js.array (map js.string (map sanitize_doc_text (t ∷ ts))))

  abbrev pub parameter : Text → js.Value
  parameter name = object_of js (
      (bytes "name", js.string name)
      ∷ (bytes "in", js.string (bytes "path"))
      ∷ (bytes "required", js.flag true)
      ∷ (bytes "schema", object_of js ((bytes "type", js.string (bytes "string")) ∷ []))
      ∷ [])

  abbrev pub parameters_value : List Text → Option js.Value
  parameters_value [] = none
  parameters_value (n ∷ ns) = some (js.array (map parameter (n ∷ ns)))

  -- The fields of an operation up to its parameters.
  abbrev pub described : (method : Text) → Route → js.Map
  described method r =
      put_some js (bytes "parameters") (parameters_value (placeholder_names r.path)) (
        js.put (bytes "operationId") (js.string (operation_id method r.path)) (
          put_some js (bytes "tags") (tags_value r.meta.tags) (
            put_some js (bytes "description") (sanitized r.meta.description)
              (put_some js (bytes "summary") (sanitized r.meta.summary) js.empty_map))))

  abbrev pub media_type : RequestBodyKind → Text
  media_type json = bytes "application/json"
  media_type form = bytes "application/x-www-form-urlencoded"
  media_type multipart = bytes "multipart/form-data"

  -- `{ media: { "schema": schema } }`
  abbrev pub content : (media : Text) → js.Value → js.Value
  content media schema = object_of js ((media, object_of js ((bytes "schema", schema) ∷ [])) ∷ [])

  abbrev pub request_body : RequestBodyKind → js.Value → js.Value
  request_body kind schema =
      object_of js (
        (bytes "required", js.flag true) ∷ (bytes "content", content (media_type kind) schema) ∷ [])

  abbrev pub requirement : SecurityRequirement → Text × js.Value
  requirement req =
      (sanitize_doc_text req.scheme, js.array (map js.string (map sanitize_doc_text req.scopes)))

  abbrev pub security_value : List SecurityRequirement → Option js.Value
  security_value [] = none
  security_value (r ∷ rs) = some (js.array (object_of js (map requirement (r ∷ rs)) ∷ []))

  module _ (sc : Schemas) where
    -- A schema function that may be missing.
    unfoldable pub schema_of : Option ℕ → sc.Generator → sc.Generator × Option js.Value
    schema_of none g = (g, none)
    schema_of (some thunk) g = let (g', v) = sc.run_thunk thunk g in (g', some v)

  module _ (sa : StatusApi) (sc : Schemas) where
    abbrev pub contents : Text → Option js.Value → Option js.Value
    contents media none = none
    contents media (some schema) = some (content media schema)

    abbrev pub response_value : RouteMeta → Option js.Value → js.Value
    response_value meta schema = js.object (
        put_some js (bytes "content")
          (contents (if meta.streaming then bytes "text/event-stream" else bytes "application/json")
            schema)
          (js.put (bytes "description")
            (js.string (
              if meta.streaming
              then bytes "Server-Sent Events stream"
              else unwrap_or (sa.canonical_reason meta.status_code) (bytes "Response")))
            js.empty_map))

    abbrev pub body_value : RequestBodyKind → Option js.Value → Option js.Value
    body_value kind none = none
    body_value kind (some schema) = some (request_body kind schema)

    -- The operation of a route, with the schemas of its body and its response.
    abbrev pub operation_value :
        (method : Text) → Route → (body answer : Option js.Value) → js.Value
    operation_value method r body answer = js.object (
        put_some js (bytes "security") (security_value r.meta.security) (
          js.put (bytes "responses")
            (object_of js ((decimal r.meta.status_code, response_value r.meta answer) ∷ []))
            (put_some js (bytes "requestBody") (body_value r.meta.request_kind body)
              (described method r))))

    unfoldable pub operation : Route → sc.Generator → sc.Generator × js.Value
    operation r g =
        let (g', body) = schema_of sc r.meta.request_schema g in
        let (g'', answer) = schema_of sc r.meta.response_schema g' in
        (g'', operation_value (lower r.method) r body answer)

    -- The insertion into an entry, if it is an object.
    abbrev pub inserted_in : (method : Text) → js.Value → Option js.Map → js.Value → js.Value
    inserted_in method op none entry = entry
    inserted_in method op (some m) entry = js.object (js.put method op m)

    abbrev pub inserted : (method : Text) → js.Value → js.Value → js.Value
    inserted method op entry = inserted_in method op (js.as_object entry) entry

    abbrev pub put_operation : (path method : Text) → js.Value → js.Map → js.Map
    put_operation path method op paths =
        js.put path
          (inserted method op (unwrap_or (js.field_of path paths) (js.object js.empty_map))) paths

    unfoldable pub collect : List Route → sc.Generator → js.Map → sc.Generator × js.Map
    collect [] g paths = (g, paths)
    collect (r ∷ rs) g paths =
        let (g', op) = operation r g in
        collect rs g' (put_operation r.path (lower r.method) op paths)

    abbrev pub info : OpenApi → js.Value
    info a = js.object (
        put_some js (bytes "description") (sanitized a.description) (
          js.put (bytes "version") (js.string a.version)
            (js.put (bytes "title") (js.string (sanitize_doc_text a.title)) js.empty_map)))

    abbrev pub schemes_value : List (Text × js.Value) → Option js.Value
    schemes_value [] = none
    schemes_value (kv ∷ kvs) = some (object_of js (kv ∷ kvs))

    abbrev pub definitions_value : js.Map → Option js.Value
    definitions_value fs = if js.is_empty_map fs then none else some (js.object fs)

    abbrev pub components : js.Map → List (Text × js.Value) → js.Map
    components definitions schemes =
        put_some js (bytes "securitySchemes") (schemes_value schemes)
          (put_some js (bytes "schemas") (definitions_value definitions) js.empty_map)

    abbrev pub document : OpenApi → js.Map → (definitions : js.Map) → js.Value
    document a paths definitions = js.object (
        put_some js (bytes "components")
          (definitions_value (components definitions a.security_schemes))
          (js.put (bytes "paths") (js.object paths) (
            js.put (bytes "info") (info a)
              (js.put (bytes "openapi") (js.string (bytes "3.1.0")) js.empty_map))))

    unfoldable pub build_document : OpenApi → List Route → js.Value
    build_document a routes =
        let (g, paths) = collect routes sc.new_generator js.empty_map in
        document a paths (sc.take_definitions g)
