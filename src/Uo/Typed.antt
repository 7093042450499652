-- ===== src/Uo/Typed.antt =====
-- pkg/utils/uo/nested_fields.go: the getters that want a value of one type. The outer `none` of a
-- result is "not found".
use Prim.Native.String.{◌++◌}
use kluctl.Prelude.{
  String, Bool, false, Option, none, some, List, [], ◌∷◌, Result, ok, err, panicked, ◌>>=◌, Map,
}
use kluctl.Uo.Value.{Value, null, bool, string, list, object, Items, nil, cons, Fields, end, field}
use kluctl.Uo.Child.{KeyPath}
use kluctl.Uo.JsonPath.{to_json_path}
use kluctl.Uo.Nested.{UnstructuredObject, get_nested_field, set_nested_field}

-- A getter: the value at a path, handed to a conversion of its type.
abbrev at {ℓ} : {A : Type ℓ} → UnstructuredObject → KeyPath → (Value → Result A) → Result (Option A)
at o keys convert = do
  found ← get_nested_field o keys
  elim found [ none ↦ ok none | some v ↦ convert v >>= λ a. ok (some a) ]

to_string_at : KeyPath → Value → Result String
unfolding to_json_path
to_string_at keys (string s) = ok s
to_string_at keys v = err ("value at " ++ to_json_path keys ++ " is not a string")

unfoldable pub get_nested_string : UnstructuredObject → KeyPath → Result (Option String)
unfolding to_string_at
get_nested_string o keys = at o keys (to_string_at keys)

to_list_at : KeyPath → Value → Result Items
unfolding to_json_path
to_list_at keys (list l) = ok l
to_list_at keys v = err ("value at " ++ to_json_path keys ++ " is not a slice")

unfoldable pub get_nested_list : UnstructuredObject → KeyPath → Result (Option Items)
unfolding to_list_at
get_nested_list o keys = at o keys (to_list_at keys)

strings_of : KeyPath → Items → Result (List String)
unfolding to_json_path
strings_of keys nil = ok []
strings_of keys (cons (string s) l) = strings_of keys l >>= λ r. ok (s ∷ r)
strings_of keys (cons v l) =
    err ("value at index " ++ to_json_path keys ++ " is not a slice of strings")

unfoldable pub get_nested_string_list : UnstructuredObject → KeyPath → Result (Option (List String))
unfolding get_nested_list strings_of
get_nested_string_list o keys = do
  found ← get_nested_list o keys
  elim found [ none ↦ ok none | some l ↦ strings_of keys l >>= λ r. ok (some r) ]

-- `GetNestedObject`: a null value is found, as a nil pointer, which is the inner `none`.
to_object : Value → Result (Option UnstructuredObject)
to_object null = ok none
to_object (object m) = ok (some (record { fields = m }))
to_object v = err "nested value is not a map"

unfoldable pub get_nested_object :
    UnstructuredObject → KeyPath → Result (Option (Option UnstructuredObject))
unfolding to_object
get_nested_object o keys = at o keys to_object

objects_of : Items → Result (List UnstructuredObject)
objects_of nil = ok []
objects_of (cons (object m) l) = objects_of l >>= λ r. ok ((record { fields = m }) ∷ r)
objects_of (cons v l) = err "nested value is not a slice of maps"

to_object_list : Value → Result (List UnstructuredObject)
unfolding objects_of
to_object_list (list l) = objects_of l
to_object_list v = err "nested value is not a slice"

unfoldable pub get_nested_object_list :
    UnstructuredObject → KeyPath → Result (Option (List UnstructuredObject))
unfolding to_object_list
get_nested_object_list o keys = at o keys to_object_list

-- `GetNestedObjectListNoErr`
unfoldable pub get_nested_object_list_no_err :
    UnstructuredObject → KeyPath → Result (List UnstructuredObject)
unfolding get_nested_object_list
get_nested_object_list_no_err o keys = elim (get_nested_object_list o keys) [
  | ok found ↦ elim found [ none ↦ ok [] | some l ↦ ok l ]
  | err e ↦ ok []
  | panicked ↦ panicked
]

entries_of : KeyPath → Fields → Result (Map String String)
unfolding to_json_path
entries_of keys end = ok []
entries_of keys (field k (string s) m) = entries_of keys m >>= λ r. ok ((k, s) ∷ r)
entries_of keys (field k v m) =
    err ("value at " ++ to_json_path keys ++ "." ++ k ++ " is not a string")

to_string_map_at : KeyPath → Value → Result (Map String String)
unfolding entries_of
to_string_map_at keys (object m) = entries_of keys m
to_string_map_at keys v = err ("value at " ++ to_json_path keys ++ " is not a map")

unfoldable pub get_nested_string_map_copy :
    UnstructuredObject → KeyPath → Result (Option (Map String String))
unfolding to_string_map_at
get_nested_string_map_copy o keys = at o keys (to_string_map_at keys)

-- `GetNestedBool`: false if there is no such field.
to_bool : Value → Result Bool
to_bool (bool b) = ok b
to_bool v = err "field is not a bool"

unfoldable pub get_nested_bool : UnstructuredObject → KeyPath → Result Bool
unfolding to_bool
get_nested_bool o keys = do
  found ← get_nested_field o keys
  elim found [ none ↦ ok false | some v ↦ to_bool v ]

-- `SetNestedFieldDefault`
default_unless :
    UnstructuredObject → Value → KeyPath → Option Value → UnstructuredObject × Result (Unit {0})
unfolding set_nested_field
default_unless o v keys none = set_nested_field o v keys
default_unless o v keys (some null) = set_nested_field o v keys
default_unless o v keys (some w) = (o, ok tt)

unfoldable pub set_nested_field_default :
    UnstructuredObject → Value → KeyPath → UnstructuredObject × Result (Unit {0})
unfolding default_unless
set_nested_field_default o v keys = elim (get_nested_field o keys) [
  | ok found ↦ default_unless o v keys found
  | err e ↦ (o, err e)
  | panicked ↦ (o, panicked)
]
