-- ===== src/OpenApi/Json.antt =====
-- crates/tork-openapi/src/: what the documents use of the crate serde_json, as a parameter. A map
-- holds one value for a key, the last one that was inserted; `as_object` and `as_str` read what a
-- value was made of.
use tork_framework.Base.{◌≡◌, Bool, Option, none, some, List, [], ◌∷◌, Text, text_eq, if◌then◌else◌}

pub record Json : Type 1 where
  pub Value : Type 0
  pub Map : Type 0
  pub string : Text → Value
  pub flag : Bool → Value
  pub array : List Value → Value
  pub object : Map → Value
  pub as_object : Value → Option Map
  pub as_str : Value → Option Text
  pub empty_map : Map
  pub put : Text → Value → Map → Map
  pub field_of : Text → Map → Option Value
  pub is_empty_map : Map → Bool
  pub as_object-object : (m : Map) → as_object (object m) ≡ some m
  pub as_str-string : (t : Text) → as_str (string t) ≡ some t
  pub field_of-empty_map : (k : Text) → field_of k empty_map ≡ none
  pub field_of-put :
      (k j : Text) (v : Value) (m : Map)
      → field_of j (put k v m) ≡ (if text_eq k j then some v else field_of j m)

module _ (js : Json) where
  abbrev pub put_some : Text → Option js.Value → js.Map → js.Map
  put_some k none m = m
  put_some k (some v) m = js.put k v m

  -- The collection of pairs into a map, and a literal of `json!`.
  abbrev pub put_all : List (Text × js.Value) → js.Map → js.Map
  put_all [] m = m
  put_all ((k, v) ∷ kvs) m = put_all kvs (js.put k v m)

  abbrev pub object_of : List (Text × js.Value) → js.Value
  object_of kvs = js.object (put_all kvs js.empty_map)
