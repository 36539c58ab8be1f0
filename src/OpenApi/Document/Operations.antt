-- ===== src/OpenApi/Document/Operations.antt =====
-- crates/tork-openapi/src/spec.rs: which operations a document holds.
use tork_framework.Base.{
  ◌≡◌, refl, ap, ◌∙◌, false, ◌&&◌, Option, none, some, List, [], ◌∷◌, Text, bytes, text_eq,
  text_eq_iff, if◌then◌else◌, lower, unwrap_or, and_then, or_else, or_else-if, or_else-none, inl,
  inr, Bool-cases,
}
use tork_framework.Error.{StatusApi}
use tork_framework.Router.Routes.{Route}
use tork_framework.OpenApi.Json.{Json, put_some}
use tork_framework.OpenApi.Document.{
  Schemas, OpenApi, operation, inserted, put_operation, collect, build_document,
}

module _ (js : Json) where
  -- The value at a path and a method.
  abbrev pub entry_at : (method : Text) → Option js.Value → Option js.Value
  entry_at m o = and_then o (λ v. and_then (js.as_object v) (js.field_of m))

  abbrev pub operation_at : (path method : Text) → js.Map → Option js.Value
  operation_at p m paths = entry_at m (js.field_of p paths)

  abbrev pub document_operation : (path method : Text) → js.Value → Option js.Value
  document_operation p m v = and_then (js.as_object v) (λ d.
      and_then (js.field_of (bytes "paths") d)
        (λ paths. and_then (js.as_object paths) (operation_at p m)))

  -- The last operation of a path and a method in a list of them.
  unfoldable pub latest : (path method : Text) → List (Text × Text × js.Value) → Option js.Value
  latest p m [] = none
  latest p m ((q, n, op) ∷ es) =
      or_else (latest p m es) (if text_eq q p && text_eq n m then some op else none)

  module _ (sa : StatusApi) (sc : Schemas js) where
    -- The operations of routes, in order, with the generator passed from one to the next.
    unfoldable pub made : List Route → sc.Generator → List (Text × Text × js.Value)
    made [] g = []
    made (r ∷ rs) g =
        let (g', op) = operation js sa sc r g in (r.path, lower r.method, op) ∷ made rs g'

    -- An entry that is missing, or an object.
    abbrev IsObjectIfAny : Option js.Value → Type 0
    IsObjectIfAny none = Unit
    IsObjectIfAny (some v) = (m : js.Map) × (js.as_object v ≡ some m)

    abbrev AllObjects : js.Map → Type 0
    AllObjects paths = (k : Text) → IsObjectIfAny (js.field_of k paths)

    inserted_object :
        (n : Text) (op v : js.Value) (fs : js.Map)
        → js.as_object v ≡ some fs
        → inserted js sa sc n op v ≡ js.object (js.put n op fs)
    inserted_object n op v fs e = rw e refl

    entry_at-object :
        (n m : Text) (op v : js.Value) (fs : js.Map)
        → js.as_object v ≡ some fs
        → entry_at m (some (inserted js sa sc n op v))
          ≡ (if text_eq n m then some op else js.field_of m fs)
    entry_at-object n m op v fs e =
        ap (λ w. entry_at m (some w)) (inserted_object n op v fs e)
        ∙ rw (js.as_object-object (js.put n op fs)) (js.field_of-put n m op fs)

    entry_at-inserted :
        (n m : Text) (op : js.Value) (o : Option js.Value)
        → IsObjectIfAny o
        → entry_at m (some (inserted js sa sc n op (unwrap_or o (js.object js.empty_map))))
          ≡ (if text_eq n m then some op else entry_at m o)
    entry_at-inserted n m op none h =
        entry_at-object n m op (js.object js.empty_map) js.empty_map
          (js.as_object-object js.empty_map)
        ∙ rw (js.field_of-empty_map m) refl
    entry_at-inserted n m op (some v) (fs, e) = entry_at-object n m op v fs e ∙ rw e refl

    inserted-IsObject :
        (n : Text) (op : js.Value) (o : Option js.Value)
        → IsObjectIfAny o
        → IsObjectIfAny (some (inserted js sa sc n op (unwrap_or o (js.object js.empty_map))))
    inserted-IsObject n op none h = (
      js.put n op js.empty_map,
      ap js.as_object (
            inserted_object n op (js.object js.empty_map) js.empty_map
              (js.as_object-object js.empty_map))
          ∙ js.as_object-object (js.put n op js.empty_map),
    )
    inserted-IsObject n op (some v) (fs, e) = (
      js.put n op fs,
      ap js.as_object (inserted_object n op v fs e) ∙ js.as_object-object (js.put n op fs),
    )

    put-AllObjects :
        (k : Text) (v : js.Value) (paths : js.Map)
        → IsObjectIfAny (some v)
        → AllObjects paths
        → AllObjects (js.put k v paths)
    put-AllObjects k v paths o h j = elim (Bool-cases (text_eq k j)) [
      | inl same ↦ rw (js.field_of-put k j v paths, same) o
      | inr other ↦ rw (js.field_of-put k j v paths, other) (h j)
    ]

    operation_at-put_operation :
        (q n p m : Text) (op : js.Value) (paths : js.Map)
        → AllObjects paths
        → operation_at p m (put_operation js sa sc q n op paths)
          ≡ (if text_eq q p && text_eq n m then some op else operation_at p m paths)
    operation_at-put_operation q n p m op paths h =
        ap (entry_at m) (
          js.field_of-put q p
            (inserted js sa sc n op (unwrap_or (js.field_of q paths) (js.object js.empty_map)))
            paths)
        ∙ elim (Bool-cases (text_eq q p)) [
          | inl same ↦ rw same (
              entry_at-inserted n m op (js.field_of q paths) (h q)
              ∙ ap (λ k. if text_eq n m then some op else operation_at k m paths)
                  ((text_eq_iff q p).0 same))
          | inr other ↦ rw other refl
        ]

    operation_at-collect :
        (p m : Text) (rs : List Route) (g : sc.Generator) (paths : js.Map)
        → AllObjects paths
        → operation_at p m (collect js sa sc rs g paths).1
          ≡ or_else (latest p m (made rs g)) (operation_at p m paths)
    unfolding collect latest made
    operation_at-collect p m [] g paths h = refl
    operation_at-collect p m (r ∷ rs) g paths h =
        let (g', op) = operation js sa sc r g in
        let n = lower r.method in
        let later = put_operation js sa sc r.path n op paths in
        let objects : AllObjects later =
          put-AllObjects r.path _ paths
            (inserted-IsObject n op (js.field_of r.path paths) (h r.path)) h in
        operation_at-collect p m rs g' later objects
        ∙ ap (or_else (latest p m (made rs g')))
            (operation_at-put_operation r.path n p m op paths h)
        ∙ or_else-if (text_eq r.path p && text_eq n m) (latest p m (made rs g'))
            (operation_at p m paths) op

    field_of-put_some :
        (k j : Text) (o : Option js.Value) (m : js.Map)
        → text_eq k j ≡ false
        → js.field_of j (put_some js k o m) ≡ js.field_of j m
    field_of-put_some k j none m ne = refl
    field_of-put_some k j (some v) m ne = js.field_of-put k j v m ∙ rw ne refl

    field_of-components :
        (o : Option js.Value) (v : js.Value) (m : js.Map)
        → js.field_of
            (bytes "paths")
            (put_some js (bytes "components") o (js.put (bytes "paths") v m))
          ≡ some v
    unfolding text_eq
    field_of-components o v m =
        field_of-put_some (bytes "components") (bytes "paths") o (js.put (bytes "paths") v m) refl
        ∙ js.field_of-put (bytes "paths") (bytes "paths") v m

    -- What is read of a document, given what its paths are.
    document_operation-paths :
        (p m : Text) (d paths : js.Map)
        → js.field_of (bytes "paths") d ≡ some (js.object paths)
        → document_operation p m (js.object d) ≡ operation_at p m paths
    document_operation-paths p m d paths e =
        ap
          (λ o. and_then o (λ d'.
            and_then (js.field_of (bytes "paths") d')
              (λ v. and_then (js.as_object v) (operation_at p m))))
          (js.as_object-object d)
        ∙ ap (λ o. and_then o (λ v. and_then (js.as_object v) (operation_at p m))) e
        ∙ ap (λ o. and_then o (operation_at p m)) (js.as_object-object paths)

    -- The document of an application is the map of its operations: at each path and method it holds
    -- the operation of the last route registered for them, made with the schema generator as the
    -- routes before left it, and none if there is no such route.
    pub document_operation-build_document :
        (a : OpenApi js) (rs : List Route) (p m : Text)
        → document_operation p m (build_document js sa sc a rs)
          ≡ latest p m (made rs sc.new_generator)
    unfolding build_document
    document_operation-build_document a rs p m =
        let paths = (collect js sa sc rs sc.new_generator js.empty_map).1 in
        document_operation-paths p m _ paths (field_of-components _ (js.object paths) _)
        ∙ operation_at-collect p m rs sc.new_generator js.empty_map
            (λ k. rw (js.field_of-empty_map k) tt)
        ∙ ap (or_else (latest p m (made rs sc.new_generator)))
            (ap (entry_at m) (js.field_of-empty_map p))
        ∙ or_else-none (latest p m (made rs sc.new_generator))
