-- ===== src/Uo/K8s.antt =====
-- pkg/utils/uo/k8s_fields.go: the fields of Kubernetes objects. The getters panic where the source
-- calls `panic(err)`.
pub mod Laws
use text.Mathlib.Text.{◌==◌ as str_eq}
use kluctl.Prelude.{
  String, ℕ, Bool, true, false, Option, none, some, List, [], ◌∷◌, if◌then◌else◌, ℤ, pos, negsuc,
  Map, Result, ok, err, wrap_int64, panicked, ◌>>=◌, or_panic, select,
}
use kluctl.Types.ObjectRef.{ObjectRef, GroupVersionKind, GroupVersion}
use kluctl.Uo.Value.{Value, null, bool, int, float, string, list, object}
use kluctl.Uo.Child.{Key, name, KeyPath}
use kluctl.Uo.Nested.{UnstructuredObject, get_nested_field, set_nested_field, remove_nested_field}
use kluctl.Uo.Typed.{
  get_nested_string, get_nested_object_list, get_nested_object_list_no_err,
  get_nested_string_map_copy,
}

-- What the file uses of apimachinery's schema package and of the hardware's floats: the parser and
-- the printer of an `apiVersion`, and the conversion of a float64 to an int64.
pub record Schema : Type 0 where
  pub parse_group_version : String → Result GroupVersion
  pub group_version_string : GroupVersion → String
  pub int_of_float : ℕ → ℤ

abbrev pub kind_path : KeyPath
kind_path = name "kind" ∷ []

abbrev pub api_version_path : KeyPath
api_version_path = name "apiVersion" ∷ []

abbrev pub metadata : String → KeyPath
metadata field = name "metadata" ∷ name field ∷ []

abbrev pub metadata_entry : String → String → KeyPath
metadata_entry field key = name "metadata" ∷ name field ∷ name key ∷ []

-- The string at a path, "" if there is none, and a panic if something else is there.
string_or_empty : Result (Option String) → Result String
string_or_empty (ok none) = ok ""
string_or_empty (ok (some s)) = ok s
string_or_empty (err e) = panicked
string_or_empty panicked = panicked

-- The edited object, if the edit returned no error.
edited : UnstructuredObject × Result (Unit {0}) → Result UnstructuredObject
edited (o, ok t) = ok o
edited (o, err e) = panicked
edited (o, panicked) = panicked

-- The edited object, whatever the edit returned; only a panic is seen.
edited_anyway : UnstructuredObject × Result (Unit {0}) → Result UnstructuredObject
edited_anyway (o, ok t) = ok o
edited_anyway (o, err e) = ok o
edited_anyway (o, panicked) = panicked

module _ (schema : Schema) where
  open schema use {parse_group_version, group_version_string, int_of_float}

  unfoldable pub get_k8s_gvk : UnstructuredObject → Result GroupVersionKind
  unfolding string_or_empty
  get_k8s_gvk o = do
    kind ← string_or_empty (get_nested_string o kind_path)
    api_version ← string_or_empty (get_nested_string o api_version_path)
    gv ← or_panic (parse_group_version api_version)
    ok (record { group = gv.group; version = gv.version; kind = kind })

  unfoldable pub set_k8s_gvk : GroupVersionKind → UnstructuredObject → Result UnstructuredObject
  unfolding edited
  set_k8s_gvk gvk o = do
    let gv = group_version_string (record { group = gvk.group; version = gvk.version })
    o' ← edited (set_nested_field o (string gv) api_version_path)
    edited (set_nested_field o' (string gvk.kind) kind_path)

unfoldable pub get_k8s_name : UnstructuredObject → Result String
unfolding string_or_empty
get_k8s_name o = string_or_empty (get_nested_string o (metadata "name"))

unfoldable pub set_k8s_name : String → UnstructuredObject → Result UnstructuredObject
unfolding edited
set_k8s_name n o = edited (set_nested_field o (string n) (metadata "name"))

unfoldable pub get_k8s_namespace : UnstructuredObject → Result String
unfolding string_or_empty
get_k8s_namespace o = string_or_empty (get_nested_string o (metadata "namespace"))

unfoldable pub set_k8s_namespace : String → UnstructuredObject → Result UnstructuredObject
unfolding edited
set_k8s_namespace namespace o =
    if str_eq namespace ""
    then edited (remove_nested_field o (metadata "namespace"))
    else edited (set_nested_field o (string namespace) (metadata "namespace"))

unfoldable pub get_k8s_ref : Schema → UnstructuredObject → Result ObjectRef
unfolding get_k8s_gvk get_k8s_name get_k8s_namespace
get_k8s_ref schema o = do
  gvk ← get_k8s_gvk schema o
  n ← get_k8s_name o
  namespace ← get_k8s_namespace o
  ok (record {
    group = gvk.group;
    version = gvk.version;
    kind = gvk.kind;
    name = n;
    namespace = namespace;
  })

unfoldable pub get_k8s_uid : UnstructuredObject → Result String
unfolding string_or_empty
get_k8s_uid o = string_or_empty (get_nested_string o (metadata "uid"))

map_or_empty : Result (Option (Map String String)) → Result (Map String String)
map_or_empty (ok none) = ok []
map_or_empty (ok (some m)) = ok m
map_or_empty (err e) = panicked
map_or_empty panicked = panicked

unfoldable pub get_k8s_labels : UnstructuredObject → Result (Map String String)
unfolding map_or_empty
get_k8s_labels o = map_or_empty (get_nested_string_map_copy o (metadata "labels"))

unfoldable pub get_k8s_label : UnstructuredObject → String → Result (Option String)
get_k8s_label o n = or_panic (get_nested_string o (metadata_entry "labels" n))

unfoldable pub set_k8s_label : String → String → UnstructuredObject → Result UnstructuredObject
unfolding edited
set_k8s_label n value o = edited (set_nested_field o (string value) (metadata_entry "labels" n))

unfoldable pub get_k8s_annotations : UnstructuredObject → Result (Map String String)
unfolding map_or_empty
get_k8s_annotations o = map_or_empty (get_nested_string_map_copy o (metadata "annotations"))

unfoldable pub get_k8s_annotation : UnstructuredObject → String → Result (Option String)
get_k8s_annotation o n = or_panic (get_nested_string o (metadata_entry "annotations" n))

unfoldable pub set_k8s_annotation : String → String → UnstructuredObject → Result UnstructuredObject
unfolding edited
set_k8s_annotation n value o =
    edited (set_nested_field o (string value) (metadata_entry "annotations" n))

-- The loops of `SetK8sLabels` and `SetK8sAnnotations` over the given map.
set_entries :
    (String → String → UnstructuredObject → Result UnstructuredObject)
    → Map String String
    → UnstructuredObject
    → Result UnstructuredObject
set_entries put [] o = ok o
set_entries put ((k, v) ∷ m) o = put k v o >>= λ o'. set_entries put m o'

unfoldable pub set_k8s_labels : Map String String → UnstructuredObject → Result UnstructuredObject
unfolding edited_anyway set_entries set_k8s_label
set_k8s_labels labels o = do
  o' ← edited_anyway (remove_nested_field o (metadata "labels"))
  set_entries set_k8s_label labels o'

unfoldable pub set_k8s_annotations :
    Map String String → UnstructuredObject → Result UnstructuredObject
unfolding edited_anyway set_entries set_k8s_annotation
set_k8s_annotations annotations o = do
  o' ← edited_anyway (remove_nested_field o (metadata "annotations"))
  set_entries set_k8s_annotation annotations o'

-- The entries whose key the regular expression matches.
matching : (String → Bool) → Map String String → Map String String
matching matches = select (λ e. matches e.0)

unfoldable pub get_k8s_labels_with_regex :
    UnstructuredObject → (String → Bool) → Result (Map String String)
unfolding matching get_k8s_labels
get_k8s_labels_with_regex o matches = get_k8s_labels o >>= λ m. ok (matching matches m)

unfoldable pub get_k8s_annotations_with_regex :
    UnstructuredObject → (String → Bool) → Result (Map String String)
unfolding matching get_k8s_annotations
get_k8s_annotations_with_regex o matches = get_k8s_annotations o >>= λ m. ok (matching matches m)

-- `GetNestedInt` as its callers use it, without the error: a value of a numeric kind.
int_value : Schema → Value → Option ℤ
int_value schema (int i) = some (wrap_int64 i)
int_value schema (float f) = some (schema.int_of_float f)
int_value schema v = none

unfoldable pub get_nested_int_no_err : Schema → UnstructuredObject → KeyPath → Option ℤ
unfolding int_value
get_nested_int_no_err schema o keys = elim (get_nested_field o keys) [
  | ok found ↦ elim found [ none ↦ none | some v ↦ int_value schema v ]
  | err e ↦ none
  | panicked ↦ none
]

unfoldable pub get_k8s_generation : Schema → UnstructuredObject → ℤ
unfolding get_nested_int_no_err
get_k8s_generation schema o = elim (get_nested_int_no_err schema o (metadata "generation")) [
  | none ↦ negsuc 0
  | some g ↦ g
]

unfoldable pub get_k8s_resource_version : UnstructuredObject → Result String
get_k8s_resource_version o = elim (get_nested_string o (metadata "resourceVersion")) [
  | ok found ↦ elim found [ none ↦ ok "" | some s ↦ ok s ]
  | err e ↦ ok ""
  | panicked ↦ panicked
]

unfoldable pub set_k8s_resource_version : String → UnstructuredObject → Result UnstructuredObject
unfolding edited edited_anyway
set_k8s_resource_version rv o =
    if str_eq rv ""
    then edited_anyway (remove_nested_field o (metadata "resourceVersion"))
    else edited (set_nested_field o (string rv) (metadata "resourceVersion"))

unfoldable pub get_k8s_owner_references : UnstructuredObject → Result (List UnstructuredObject)
get_k8s_owner_references o = get_nested_object_list_no_err o (metadata "ownerReferences")

unfoldable pub get_k8s_managed_fields : UnstructuredObject → Result (List UnstructuredObject)
get_k8s_managed_fields o = get_nested_object_list_no_err o (metadata "managedFields")
