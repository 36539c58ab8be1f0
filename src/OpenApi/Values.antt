-- ===== src/OpenApi/Values.antt =====
-- Concrete JSON values for the parameter `Json`, for the tests: a map is a list of entries.
use tork_framework.Base.{
  ◌≡◌, refl, arith, Bool, true, false, Option, none, some, List, [], ◌∷◌, Text, text_eq,
  text_eq_iff, if◌then◌else◌, ℕ,
}
use tork_framework.OpenApi.Json.{Json}

mutual
  pub data Value : Type 0 where
    string : Text → Value
    number : ℕ → Value
    flag : Bool → Value
    array : Items → Value
    object : Fields → Value

  pub data Items : Type 0 where
    nil : Items
    cons : Value → Items → Items

  pub data Fields : Type 0 where
    end : Fields
    field : Text → Value → Fields → Fields

abbrev pub items : List Value → Items
items [] = nil
items (v ∷ vs) = cons v (items vs)

unfoldable pub put : Text → Value → Fields → Fields
put k v end = field k v end
put k v (field j w fs) = if text_eq j k then field k v fs else field j w (put k v fs)

unfoldable pub field_of : Text → Fields → Option Value
field_of k end = none
field_of k (field j w fs) = if text_eq j k then some w else field_of k fs

abbrev pub is_end : Fields → Bool
is_end end = true
is_end (field k v fs) = false

abbrev pub as_object : Value → Option Fields
as_object (object fs) = some fs
as_object _ = none

abbrev pub as_str : Value → Option Text
as_str (string t) = some t
as_str _ = none

pub field_of-end : (k : Text) → field_of k end ≡ none
unfolding field_of
field_of-end k = refl

pub field_of-put :
    (k j : Text) (v : Value) (fs : Fields)
    → field_of j (put k v fs) ≡ (if text_eq k j then some v else field_of j fs)
unfolding field_of put
field_of-put k j v end = refl
field_of-put k j v (field i w fs) =
    ground (arith, text_eq_iff k j, text_eq_iff i k, text_eq_iff i j, field_of-put k j v fs)

abbrev pub values : Json
values = record {
  Value = Value;
  Map = Fields;
  string = string;
  flag = flag;
  array = λ vs. array (items vs);
  object = object;
  as_object = as_object;
  as_str = as_str;
  empty_map = end;
  put = put;
  field_of = field_of;
  is_empty_map = is_end;
  as_object-object = λ m. refl;
  as_str-string = λ t. refl;
  field_of-empty_map = field_of-end;
  field_of-put = field_of-put;
}
