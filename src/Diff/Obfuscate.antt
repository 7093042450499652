-- ===== src/Diff/Obfuscate.antt =====
-- pkg/diff/obfuscate.go: hiding the values of secrets in the objects of a result.
pub mod Hidden
use kluctl.Prelude.{
  String, Bool, true, false, Option, none, some, List, [], ◌∷◌, if◌then◌else◌, ◌==◌, Result, ok,
  err, panicked, ◌>>=◌,
}
use kluctl.Types.ObjectRef.{ObjectRef, GroupKind, group_kind, gk_eq}
use kluctl.Uo.Value.{
  Value, null, bool, int, float, string, list, object, Fields, end, field, put_field,
}
use kluctl.Uo.Child.{name}
use kluctl.Uo.Nested.{UnstructuredObject, get_nested_field}
use kluctl.Uo.K8s.{Schema, get_k8s_ref}

-- `secretGk`
abbrev pub secret_gk : GroupKind
secret_gk = record { group = ""; kind = "Secret" }

-- The text that stands for a value, and its base64 encoding.
abbrev pub hidden : String
hidden = "*****"

abbrev pub hidden_base64 : String
hidden_base64 = "KioqKio="

-- The loop that overwrites every value of a map.
unfoldable pub hide : String → Fields → Fields
hide t end = end
hide t (field k v m) = field k (string t) (hide t m)

-- The object, a clone of the given one if a value was changed, and the error.
abbrev pub Obfuscated : Type 0
Obfuscated = UnstructuredObject × Option String

abbrev pub hide_value : String → String → UnstructuredObject → Value → Obfuscated
hide_value key t x null = (x, none)
hide_value key t x (object m) =
    (record { fields = put_field key (object (hide t m)) x.fields }, none)
hide_value key t x _ = (x, some "'data' is not a map of strings")

-- An error of `GetNestedField` is ignored.
abbrev pub hide_found : String → String → UnstructuredObject → Result (Option Value) → Obfuscated
hide_found key t x (ok none) = (x, none)
hide_found key t x (ok (some v)) = hide_value key t x v
hide_found key t x (err e) = (x, none)
hide_found key t x panicked = (x, none)

unfoldable pub hide_field : String → String → UnstructuredObject → Obfuscated
unfolding hide
hide_field key t x = hide_found key t x (get_nested_field x (name key ∷ []))

abbrev pub then_hide : String → String → Obfuscated → Obfuscated
then_hide key t (x, none) = hide_field key t x
then_hide key t (x, some e) = (x, some e)

-- `obfuscateSecret`
unfoldable pub obfuscate_secret : UnstructuredObject → Obfuscated
unfolding hide_field
obfuscate_secret x = then_hide "stringData" hidden (hide_field "data" hidden_base64 x)

abbrev pub with_object : Obfuscated → Option UnstructuredObject × Option String
with_object r = (some r.0, r.1)

-- `ObfuscateObject`
unfoldable pub obfuscate_object :
    Schema → Option UnstructuredObject → Result (Option UnstructuredObject × Option String)
unfolding obfuscate_secret
obfuscate_object schema none = ok (none, none)
obfuscate_object schema (some x) = get_k8s_ref schema x >>= λ ref.
    ok (if group_kind ref == secret_gk then with_object (obfuscate_secret x) else (some x, none))
