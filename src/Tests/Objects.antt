-- ===== src/Tests/Objects.antt =====
-- Runs of the theorems on pkg/utils/uo.
use kluctl.Prelude.{◌≡◌, ◌≢◌, refl, none, some, [], ◌∷◌, pos, ok}
use kluctl.Types.ObjectRef.{ObjectRef}
use kluctl.Uo.Value.{string, object, end, field, get_field, put_field, Fields}
use kluctl.Uo.Child.{name, index, KeyPath, get_child, set_child}
use kluctl.Uo.Nested.{UnstructuredObject, get_nested_field, set_nested_field, remove_nested_field}
use kluctl.Uo.Nested.Laws.{get-set_nested_field}
use kluctl.Uo.Nested.Frame.{here, below, set_nested_field-frame, set_nested_field-absent}
use kluctl.Uo.Nested.Remove.{to_field, get-remove_nested_field}
use kluctl.Uo.Merge.{merge_map}
use kluctl.Uo.Merge.Laws.{Distinct, merged, get_field-merge_map}
use kluctl.Uo.JsonPath.{to_json_path}
use kluctl.Uo.Typed.{get_nested_string}
use kluctl.Uo.K8s.{Schema, get_k8s_ref, set_k8s_name, set_k8s_namespace}
use kluctl.Uo.K8s.Laws.{get_k8s_ref-set_k8s_name, get_k8s_ref-set_k8s_namespace}

abbrev pod : UnstructuredObject
pod = record {
  fields = field "apiVersion" (string "v1") (
      field "kind" (string "Pod") (
        field "metadata" (object (field "name" (string "a") (field "namespace" (string "n") end)))
          end));
}

abbrev name_path : KeyPath
name_path = name "metadata" ∷ name "name" ∷ []

abbrev namespace_path : KeyPath
namespace_path = name "metadata" ∷ name "namespace" ∷ []

to_json_path_sample :
    to_json_path (name "spec" ∷ name "a" ∷ index (pos 12) ∷ name "x.y" ∷ [])
    ≡ "spec[\"a\"][12][\"x.y\"]"
unfolding to_json_path
to_json_path_sample = refl

get-set_nested_field_example :
    get_nested_field (set_nested_field pod (string "b") name_path).0 name_path
    ≡ ok (some (string "b"))
unfolding set_nested_field get_child set_child get_field
get-set_nested_field_example =
    get-set_nested_field pod (string "b") (name "metadata") (name "name" ∷ []) refl

set_nested_field-frame_example :
    get_nested_field (set_nested_field pod (string "b") name_path).0 namespace_path
    ≡ ok (some (string "n"))
unfolding get_nested_field get_child get_field
set_nested_field-frame_example =
    set_nested_field-frame pod (string "b") (string "n") name_path namespace_path
      (below (here (λ e. cc))) refl

set_nested_field-absent_example :
    get_nested_field (set_nested_field pod (string "b") name_path).0 (name "status" ∷ []) ≡ ok none
unfolding get_nested_field get_child get_field
set_nested_field-absent_example =
    set_nested_field-absent pod (string "b") name_path (name "status" ∷ []) (here (λ e. cc)) tt refl

get-remove_nested_field_example :
    get_nested_field
      (remove_nested_field pod (to_field (name "metadata" ∷ []) "name")).0
      (to_field (name "metadata" ∷ []) "name")
    ≢ ok (some (string "a"))
unfolding remove_nested_field get_child set_child get_field
get-remove_nested_field_example =
    get-remove_nested_field pod (string "a") (name "metadata" ∷ []) "name" refl

abbrev schema : Schema
schema = record {
  parse_group_version = λ s. ok (record { group = ""; version = s });
  group_version_string = λ gv. gv.version;
  int_of_float = λ n. pos 0;
}

abbrev pod_ref : ObjectRef
pod_ref = record { group = ""; version = "v1"; kind = "Pod"; name = "a"; namespace = "n" }

pod_ref_found : get_k8s_ref schema pod ≡ ok pod_ref
unfolding get_k8s_ref get_nested_string get_nested_field get_child get_field
pod_ref_found = refl

abbrev renamed : UnstructuredObject
renamed = record {
  fields = field "apiVersion" (string "v1") (
      field "kind" (string "Pod") (
        field "metadata" (object (field "name" (string "b") (field "namespace" (string "n") end)))
          end));
}

rename : set_k8s_name "b" pod ≡ ok renamed
unfolding set_k8s_name set_nested_field get_child get_field set_child put_field
rename = refl

abbrev moved : UnstructuredObject
moved = record {
  fields = field "apiVersion" (string "v1") (
      field "kind" (string "Pod") (
        field "metadata" (object (field "name" (string "a") (field "namespace" (string "m") end)))
          end));
}

move : set_k8s_namespace "m" pod ≡ ok moved
unfolding set_k8s_namespace set_nested_field get_child get_field set_child put_field
move = refl

get_k8s_ref-set_k8s_name_example : get_k8s_ref schema renamed ≡ ok (record pod_ref { name = "b" })
get_k8s_ref-set_k8s_name_example =
    get_k8s_ref-set_k8s_name schema pod renamed pod_ref "b" pod_ref_found rename

get_k8s_ref-set_k8s_namespace_example :
    get_k8s_ref schema moved ≡ ok (record pod_ref { namespace = "m" })
get_k8s_ref-set_k8s_namespace_example =
    get_k8s_ref-set_k8s_namespace schema pod moved pod_ref "m" (λ e. cc) pod_ref_found move

-- Labels to be merged into those of a pod.
abbrev labels : Fields
labels =
    field "metadata" (object (field "labels" (object (field "tier" (string "web") end)) end)) end

labels-Distinct : Distinct labels
unfolding Distinct get_field
labels-Distinct = (refl, tt)

get_field-merge_map_example :
    get_field "metadata" (merge_map pod.fields labels)
    ≡ merged (get_field "metadata" pod.fields) (get_field "metadata" labels)
get_field-merge_map_example = get_field-merge_map "metadata" pod.fields labels labels-Distinct
