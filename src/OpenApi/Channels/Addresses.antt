-- ===== src/OpenApi/Channels/Addresses.antt =====
-- crates/tork-openapi/src/asyncapi.rs: which channels a document holds.
use tork_framework.Base.{
  ◌≡◌, refl, ap, ◌∙◌, Bool, true, false, ◌&&◌, not, Option, none, some, List, [], ◌∷◌, Text, bytes,
  text_eq, if◌then◌else◌, and_then, or_else, or_else-if, or_else-none, inl, inr, Bool-cases,
}
use tork_framework.Router.Routes.{Route}
use tork_framework.OpenApi.Json.{Json, put_some}
use tork_framework.OpenApi.Names.{channel_name}
use tork_framework.OpenApi.Document.{Schemas, schema_of}
use tork_framework.OpenApi.Channels.{
  AsyncApi, is_realtime, channel_value, Collected, add_route, add_stream, add_socket,
  collect_channels, empty_document, build_async_document, put_message,
}

-- The path of the last stream or socket whose channel has the name.
unfoldable pub last_path : (name : Text) → List Route → Option Text
last_path name [] = none
last_path name (r ∷ rs) =
    or_else (last_path name rs)
      (if is_realtime r && text_eq (channel_name r.path) name then some r.path else none)

module _ (js : Json) where
  -- The text of a field.
  abbrev pub text_at : Text → js.Value → Option Text
  text_at k v = and_then (js.as_object v) (λ fs. and_then (js.field_of k fs) js.as_str)

  -- The address that a document gives for a channel.
  abbrev pub address_in : (name : Text) → js.Map → Option Text
  address_in name channels = and_then (js.field_of name channels) (text_at (bytes "address"))

  abbrev pub channel_address : (name : Text) → js.Value → Option Text
  channel_address name v = and_then (js.as_object v) (λ d.
      and_then (js.field_of (bytes "channels") d)
        (λ channels. and_then (js.as_object channels) (address_in name)))

  text_at-channel_value :
      (path : Text) (messages : js.Map)
      → text_at (bytes "address") (channel_value js path messages) ≡ some path
  unfolding text_eq
  text_at-channel_value path messages =
      let addressed = js.put (bytes "address") (js.string path) js.empty_map in
      let d = js.put (bytes "messages") (js.object messages) addressed in
      ap (λ o. and_then o (λ fs. and_then (js.field_of (bytes "address") fs) js.as_str))
        (js.as_object-object d)
      ∙ ap (λ o. and_then o js.as_str)
          (js.field_of-put (bytes "messages") (bytes "address") (js.object messages) addressed
            ∙ js.field_of-put (bytes "address") (bytes "address") (js.string path) js.empty_map)
      ∙ js.as_str-string path

  address_in-put :
      (k name path : Text) (messages channels : js.Map)
      → address_in name (js.put k (channel_value js path messages) channels)
        ≡ (if text_eq k name then some path else address_in name channels)
  address_in-put k name path messages channels =
      ap (λ o. and_then o (text_at (bytes "address")))
        (js.field_of-put k name (channel_value js path messages) channels)
      ∙ elim (Bool-cases (text_eq k name)) [
        | inl same ↦ rw same (text_at-channel_value path messages)
        | inr other ↦ rw other refl
      ]

  module _ (sc : Schemas js) where
    address_in-add_stream :
        (name : Text) (r : Route) (c : Collected js sc)
        → address_in name (add_stream js sc r c).channels
          ≡ (if text_eq (channel_name r.path) name then some r.path else address_in name c.channels)
    unfolding add_stream
    address_in-add_stream name r c =
        address_in-put (channel_name r.path) name r.path
          (put_message js (bytes "data") (schema_of js sc r.meta.response_schema c.generator).1
            js.empty_map)
          c.channels

    address_in-add_socket :
        (name : Text) (r : Route) (c : Collected js sc)
        → address_in name (add_socket js sc r c).channels
          ≡ (if text_eq (channel_name r.path) name then some r.path else address_in name c.channels)
    unfolding add_socket
    address_in-add_socket name r c =
        let (g, incoming) = schema_of js sc r.meta.ws_incoming c.generator in
        address_in-put (channel_name r.path) name r.path
          (put_message js (bytes "outgoing") (schema_of js sc r.meta.ws_outgoing g).1
            (put_message js (bytes "incoming") incoming js.empty_map))
          c.channels

    -- Of three documents, the one that two tests choose.
    address_in-if :
        (live streaming named : Bool) (name path : Text) (c x y : Collected js sc)
        → address_in name x.channels ≡ (if named then some path else address_in name c.channels)
        → address_in name y.channels ≡ (if named then some path else address_in name c.channels)
        → address_in name (if not live then c else if streaming then x else y).channels
          ≡ (if live && named then some path else address_in name c.channels)
    address_in-if false streaming named name path c x y p q = refl
    address_in-if true true named name path c x y p q = p
    address_in-if true false named name path c x y p q = q

    address_in-add_route :
        (name : Text) (r : Route) (c : Collected js sc)
        → address_in name (add_route js sc r c).channels ≡ (
            if is_realtime r && text_eq (channel_name r.path) name
            then some r.path
            else address_in name c.channels)
    unfolding add_route
    address_in-add_route name r c =
        address_in-if (is_realtime r) r.meta.streaming (text_eq (channel_name r.path) name) name
          r.path c (add_stream js sc r c) (add_socket js sc r c) (address_in-add_stream name r c)
          (address_in-add_socket name r c)

    address_in-collect_channels :
        (name : Text) (rs : List Route) (c : Collected js sc)
        → address_in name (collect_channels js sc rs c).channels
          ≡ or_else (last_path name rs) (address_in name c.channels)
    unfolding collect_channels last_path
    address_in-collect_channels name [] c = refl
    address_in-collect_channels name (r ∷ rs) c =
        address_in-collect_channels name rs (add_route js sc r c)
        ∙ ap (or_else (last_path name rs)) (address_in-add_route name r c)
        ∙ or_else-if (is_realtime r && text_eq (channel_name r.path) name) (last_path name rs)
            (address_in name c.channels) r.path

    field_of-channels :
        (o : Option js.Value) (v w : js.Value) (fs : js.Map)
        → js.field_of (bytes "channels") (
            put_some js
              (bytes "components")
              o
              (js.put (bytes "operations") w (js.put (bytes "channels") v fs)))
          ≡ some v
    unfolding text_eq
    field_of-channels none v w fs =
        js.field_of-put (bytes "operations") (bytes "channels") w (js.put (bytes "channels") v fs)
        ∙ js.field_of-put (bytes "channels") (bytes "channels") v fs
    field_of-channels (some u) v w fs =
        js.field_of-put (bytes "components") (bytes "channels") u
          (js.put (bytes "operations") w (js.put (bytes "channels") v fs))
        ∙ js.field_of-put (bytes "operations") (bytes "channels") w (js.put (bytes "channels") v fs)
        ∙ js.field_of-put (bytes "channels") (bytes "channels") v fs

    -- What is read of a document, given what its channels are.
    channel_address-channels :
        (name : Text) (d channels : js.Map)
        → js.field_of (bytes "channels") d ≡ some (js.object channels)
        → channel_address name (js.object d) ≡ address_in name channels
    channel_address-channels name d channels e =
        ap
          (λ o. and_then o (λ d'.
            and_then (js.field_of (bytes "channels") d')
              (λ v. and_then (js.as_object v) (address_in name))))
          (js.as_object-object d)
        ∙ ap (λ o. and_then o (λ v. and_then (js.as_object v) (address_in name))) e
        ∙ ap (λ o. and_then o (address_in name)) (js.as_object-object channels)

    -- A channel of the AsyncAPI document has the address of the last stream or socket whose path is
    -- called by its name, and a name that none of them has has no address.
    pub channel_address-build_async_document :
        (a : AsyncApi) (rs : List Route) (name : Text)
        → channel_address name (build_async_document js sc a rs) ≡ last_path name rs
    unfolding build_async_document
    channel_address-build_async_document a rs name =
        let c = collect_channels js sc rs (empty_document js sc) in
        channel_address-channels name _ c.channels
          (field_of-channels _ (js.object c.channels) (js.object c.operations) _)
        ∙ address_in-collect_channels name rs (empty_document js sc)
        ∙ ap (or_else (last_path name rs))
            (ap (λ o. and_then o (text_at (bytes "address"))) (js.field_of-empty_map name))
        ∙ or_else-none (last_path name rs)
