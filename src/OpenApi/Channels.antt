-- ===== src/OpenApi/Channels.antt =====
-- crates/tork-openapi/src/asyncapi.rs: the builder `AsyncApi` and the document that it makes of the
-- routes for streams and sockets.
pub mod Addresses
use tork_framework.Base.{
  ◌++◌, Bool, true, false, ◌||◌, not, Option, none, some, List, [], ◌∷◌, Text, bytes, if◌then◌else◌,
}
use tork_framework.Error.{StatusApi}
use tork_framework.Router.Routes.{Route}
use tork_framework.OpenApi.Json.{Json, put_some, object_of}
use tork_framework.OpenApi.Escape.{sanitize_doc_text}
use tork_framework.OpenApi.Names.{channel_name}
use tork_framework.OpenApi.Document.{Schemas, schema_of, sanitized}

pub record AsyncApi : Type 0 where
  pub title : Text
  pub version : Text
  pub description : Option Text
  pub json_path : Text

abbrev pub new_async_api : AsyncApi
new_async_api = record {
  title = bytes "API";
  version = bytes "0.1.0";
  description = none;
  json_path = bytes "/asyncapi.json";
}

abbrev pub async_title : Text → AsyncApi → AsyncApi
async_title t a = record a { title = t }

abbrev pub async_version : Text → AsyncApi → AsyncApi
async_version t a = record a { version = t }

abbrev pub async_description : Text → AsyncApi → AsyncApi
async_description t a = record a { description = some t }

abbrev pub async_json : Text → AsyncApi → AsyncApi
async_json path a = record a { json_path = path }

abbrev pub is_realtime : Route → Bool
is_realtime r = r.meta.streaming || r.meta.websocket

abbrev pub channel_target : (name : Text) → Text
channel_target name = bytes "#/channels/" ++ name

abbrev pub message_target : (name message : Text) → Text
message_target name message = channel_target name ++ bytes "/messages/" ++ message

module _ (js : Json) where
  abbrev pub reference_to : Text → js.Value
  reference_to target = object_of js ((bytes "$ref", js.string target) ∷ [])

  -- The operation of a stream, and that of one message of a socket.
  abbrev pub stream_operation : (name : Text) → js.Value
  stream_operation name = object_of js (
      (bytes "action", js.string (bytes "send"))
      ∷ (bytes "channel", reference_to (channel_target name))
      ∷ [])

  abbrev pub socket_operation : (action name message : Text) → js.Value
  socket_operation action name message = object_of js (
      (bytes "action", js.string action)
      ∷ (bytes "channel", reference_to (channel_target name))
      ∷ (bytes "messages", js.array (reference_to (message_target name message) ∷ []))
      ∷ [])

  abbrev pub payload : js.Value → js.Value
  payload schema = object_of js ((bytes "payload", schema) ∷ [])

  abbrev pub put_message : Text → Option js.Value → js.Map → js.Map
  put_message message none messages = messages
  put_message message (some schema) messages = js.put message (payload schema) messages

  abbrev pub put_socket_operation :
      (suffix action name message : Text) → Option js.Value → js.Map → js.Map
  put_socket_operation suffix action name message none operations = operations
  put_socket_operation suffix action name message (some schema) operations =
      js.put (name ++ suffix) (socket_operation action name message) operations

  abbrev pub channel_value : (path : Text) → (messages : js.Map) → js.Value
  channel_value path messages =
      object_of js ((bytes "address", js.string path) ∷ (bytes "messages", js.object messages) ∷ [])

  module _ (sc : Schemas js) where
    -- The document so far.
    pub record Collected : Type 0 where
      pub generator : sc.Generator
      pub channels : js.Map
      pub operations : js.Map

    unfoldable pub add_stream : Route → Collected → Collected
    add_stream r c =
        let name = channel_name r.path in
        let (g, schema) = schema_of js sc r.meta.response_schema c.generator in
        record {
          generator = g;
          channels =
              js.put name (channel_value r.path (put_message (bytes "data") schema js.empty_map))
                c.channels;
          operations = js.put (name ++ bytes "_send") (stream_operation name) c.operations;
        }

    unfoldable pub add_socket : Route → Collected → Collected
    add_socket r c =
        let name = channel_name r.path in
        let (g, incoming) = schema_of js sc r.meta.ws_incoming c.generator in
        let (g', outgoing) = schema_of js sc r.meta.ws_outgoing g in
        record {
          generator = g';
          channels =
              js.put name
                (channel_value r.path (
                  put_message (bytes "outgoing") outgoing
                    (put_message (bytes "incoming") incoming js.empty_map)))
                c.channels;
          operations =
              put_socket_operation (bytes "_send") (bytes "send") name (bytes "outgoing") outgoing (
                put_socket_operation (bytes "_receive") (bytes "receive") name (bytes "incoming")
                  incoming c.operations);
        }

    unfoldable pub add_route : Route → Collected → Collected
    add_route r c =
        if not (is_realtime r)
        then c
        else if r.meta.streaming
        then add_stream r c
        else add_socket r c

    unfoldable pub collect_channels : List Route → Collected → Collected
    collect_channels [] c = c
    collect_channels (r ∷ rs) c = collect_channels rs (add_route r c)

    abbrev pub empty_document : Collected
    empty_document = record {
      generator = sc.new_generator;
      channels = js.empty_map;
      operations = js.empty_map;
    }

    abbrev pub async_info : AsyncApi → js.Value
    async_info a = js.object (
        put_some js (bytes "description") (sanitized js a.description) (
          js.put (bytes "version") (js.string a.version)
            (js.put (bytes "title") (js.string (sanitize_doc_text a.title)) js.empty_map)))

    abbrev pub schemas_value : js.Map → Option js.Value
    schemas_value definitions =
        if js.is_empty_map definitions
        then none
        else some (object_of js ((bytes "schemas", js.object definitions) ∷ []))

    abbrev pub async_document : AsyncApi → Collected → js.Value
    async_document a c = js.object (
        put_some js (bytes "components") (schemas_value (sc.take_definitions c.generator)) (
          js.put (bytes "operations") (js.object c.operations) (
            js.put (bytes "channels") (js.object c.channels) (
              js.put (bytes "info") (async_info a)
                (js.put (bytes "asyncapi") (js.string (bytes "3.0.0")) js.empty_map)))))

    unfoldable pub build_async_document : AsyncApi → List Route → js.Value
    build_async_document a routes = async_document a (collect_channels routes empty_document)
