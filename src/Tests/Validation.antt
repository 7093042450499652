-- ===== src/Tests/Validation.antt =====
-- Runs of the theorems on pkg/validation/validation.go.
use kluctl.Prelude.{◌≡◌, refl, map, true, false, none, [], ◌∷◌, ok, pos, select, wrap_int64, negsuc}
use kluctl.Types.ObjectRef.{ObjectRef}
use kluctl.Uo.Value.{string, object, end, field, get_field}
use kluctl.Uo.Nested.{UnstructuredObject, get_nested_field}
use kluctl.Uo.K8s.{get_k8s_ref, get_k8s_annotation, get_k8s_annotations_with_regex}
use kluctl.Uo.Typed.{get_nested_string, get_nested_string_map_copy, get_nested_object}
use kluctl.Uo.Child.{get_child}
use kluctl.Utils.Parse.{parse_bool_or_false}
use kluctl.Validation.Status.{react_to_error, get_status_field_str, add_not_ready}
use kluctl.Validation.Flow.{ValidateResult, add_error, not_ready, add_result, ◌>>=◌, ◌>>◌}
use kluctl.Validation.Percent.{parse_int_or_percent}
use kluctl.Validation.Object.{Surroundings, is_result_annotation, validate_object}
use kluctl.Validation.Laws.Verdict.{Verdict, entry_of}
use kluctl.Validation.Laws.Report.{validate_object-Verdict, validate_object-results}

abbrev claim : UnstructuredObject
claim = record {
  fields = field "apiVersion" (string "v1") (
      field "kind" (string "PersistentVolumeClaim") (
        field "metadata"
          (object (
            field "name" (string "a") (
              field "annotations" (object (field "validate-result.kluctl.io/x" (string "m") end))
                end)))
          (field "status" (object (field "phase" (string "Pending") end)) end)));
}

abbrev claim_ref : ObjectRef
claim_ref = record {
  group = "";
  version = "v1";
  kind = "PersistentVolumeClaim";
  name = "a";
  namespace = "";
}

abbrev surroundings : Surroundings
surroundings = record {
  schema = record {
    parse_group_version = λ s. ok (record { group = ""; version = s });
    group_version_string = λ gv. gv.version;
    int_of_float = λ f. pos 0;
  };
  cluster = none;
  is_old = λ o. false;
  percent_of = λ i total. i;
  panic_text = "";
}

abbrev not_bound : ValidateResult
not_bound = record {
  ready = false;
  warnings = [];
  errors = (record { ref = claim_ref; message = "Volume is not bound" }) ∷ [];
  results = entry_of claim_ref ("validate-result.kluctl.io/x", "m") ∷ [];
}

claim_is_not_bound : validate_object surroundings true false claim ≡ ok not_bound
unfolding validate_object add_error not_ready add_result ◌>>=◌ ◌>>◌ get_k8s_ref get_nested_string
    get_nested_field get_child get_field get_k8s_annotation get_k8s_annotations_with_regex
    get_nested_string_map_copy select get_nested_object react_to_error wrap_int64
    get_status_field_str add_not_ready
claim_is_not_bound = refl

validate_object-Verdict_example : Verdict true not_bound
validate_object-Verdict_example =
    validate_object-Verdict surroundings true false claim not_bound claim_is_not_bound

validate_object-results_example :
    (v : ValidateResult) × (validate_object surroundings true false claim ≡ ok v)
    × (v.results ≡ map (entry_of claim_ref) (("validate-result.kluctl.io/x", "m") ∷ []))
unfolding get_k8s_ref get_nested_string get_nested_field get_child get_field get_k8s_annotation
    parse_bool_or_false get_k8s_annotations_with_regex get_nested_string_map_copy select
    is_result_annotation
validate_object-results_example =
    validate_object-results surroundings true false claim claim_ref none
      (("validate-result.kluctl.io/x", "m") ∷ []) refl refl refl refl

quarter : parse_int_or_percent (string "-25%") ≡ ok (negsuc 24, true)
unfolding parse_int_or_percent
quarter = refl
