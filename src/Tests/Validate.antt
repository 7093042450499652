-- ===== src/Tests/Validate.antt =====
-- Runs of the theorems on pkg/deployment/commands/validate.go and pkg/deployment/utils/diff_utils.go.
use kluctl.Prelude.{
  ltb, suc, if◌then◌else◌, ◌≡◌, refl, true, false, none, some, [], ◌∷◌, here, ok, pos, select,
  wrap_int64, has, add, lookup, insert, contains,
}
use kluctl.Types.ObjectRef.{ObjectRef, ref_eq}
use kluctl.K8s.{K8sCluster}
use kluctl.Uo.Value.{get_field, string, object, end, field}
use kluctl.Uo.Child.{get_child}
use kluctl.Uo.Nested.{UnstructuredObject, get_nested_field}
use kluctl.Uo.Typed.{get_nested_string, get_nested_string_map_copy, get_nested_object}
use kluctl.Uo.K8s.{get_k8s_ref, get_k8s_annotation, get_k8s_annotations_with_regex}
use kluctl.Validation.Status.{react_to_error, get_status_field_str}
use kluctl.Deployment.Apply.{tick, timed_out, ObjectApi, resolved}
use kluctl.Deployment.Errors.{init, get_errors_list, get_warnings_list, add_api_warnings}
use kluctl.Deployment.Remote.{Remote, new_remote_objects_util}
use kluctl.Deployment.Diff.{Differ, get_diff_ref, calc_remote_objects_for_diff}
use kluctl.Deployment.Diff.Newest.{NewAs, calc_remote_objects_for_diff-NewAs}
use kluctl.Validation.Flow.{ValidateResult, ◌>>=◌, ◌>>◌}
use kluctl.Validation.Object.{Surroundings, validate_object}
use kluctl.Validation.Laws.Report.{validate_object-Verdict}
use kluctl.Commands.Validate.{Code, run_validate}
use kluctl.Commands.Validate.Sound.{run_validate_ready}
use kluctl.Tests.Server.{options, discovery, texts}

-- A volume claim that is bound.
abbrev claim : UnstructuredObject
claim = record {
  fields = field "apiVersion" (string "v1") (
      field "kind" (string "PersistentVolumeClaim") (
        field "metadata" (object (field "name" (string "a") end))
          (field "status" (object (field "phase" (string "Bound") end)) end)));
}

abbrev claim_ref : ObjectRef
claim_ref = record {
  group = "";
  version = "v1";
  kind = "PersistentVolumeClaim";
  name = "a";
  namespace = "";
}

abbrev claims : ObjectApi UnstructuredObject
claims = record {
  ref_of = λ o. claim_ref;
  annotation = λ o n. none;
  set_name = λ n o. o;
  set_namespace = λ n o. o;
  resource_version = λ o. "";
  set_resource_version = λ v o. o;
  replace_keys = λ a b o. o;
  replace_values = λ a b o. o;
  owner_references = λ o. [];
  managed_fields = λ o. [];
  manager = λ o. "";
  crd_kinds = λ o. [];
}

abbrev surroundings : Surroundings
surroundings = record {
  schema = record {
    parse_group_version = λ s. ok (record { group = ""; version = s });
    group_version_string = λ gv. gv.version;
    int_of_float = λ f. pos 0;
  };
  cluster = none;
  is_old = λ o. false;
  percent_of = λ i total. i;
  panic_text = "";
}

abbrev differ : Differ UnstructuredObject (Unit {0})
differ = record {
  objects = claims;
  creation_time = λ o. 7;
  normalize_object = λ o ignore lo. ok o;
  diff = λ a b. ok [];
  schedule = λ l. l;
  less = λ a b. false;
}

abbrev server : K8sCluster UnstructuredObject (Unit {0})
server = record {
  dry_run = false;
  call = λ r w. record { object = claim; warnings = []; error = none; world = w };
  reset_mapper = λ w. w;
  ref_of = λ o. claim_ref;
  fix_object_for_patch = λ o. o;
  deletion_polls = λ ref. 2;
}

abbrev remote : Remote UnstructuredObject
remote = record {
  ref_of = λ o. claim_ref;
  name_of = λ o. "a";
  tags_of = λ o. [];
  annotation = λ o n. none;
  discovery = discovery;
  list_objects = λ gvk labels. record { objects = claim ∷ []; warnings = []; error = none };
  get_single_object = λ ref. ([], kluctl.Deployment.Remote.read_object claim);
  sprintf = λ s. s;
  schedule = λ l. l;
  schedule_kinds = λ l. l;
}

abbrev fine : ValidateResult
fine = record { ready = true; warnings = []; errors = []; results = [] }

abbrev code : Code UnstructuredObject (Unit {0}) (Unit {0})
code = record {
  env = record {
    objects = claims;
    k = server;
    remote_objects = [];
    remote_namespaces = [];
    o = options true;
    gk_string = λ gk. gk.kind;
    sprintf = λ s. s;
    random_string = λ w. "x";
    resolve_conflicts = λ x y e. resolved x [];
    validate_object = λ x. record { ready = true; errors = [] };
    selected = λ ref timeout round. if ltb round timeout then tick else timed_out;
    rounds = λ ref timeout. suc timeout;
  };
  texts = texts;
  remote = remote;
  differ = differ;
  validate_object = validate_object surroundings true false;
  world = tt;
}

claim_is_fine : run_validate code "" (some (claim ∷ [])) none ≡ ok (fine, [])
unfolding run_validate contains lookup has new_remote_objects_util add insert get_warnings_list
    get_errors_list add_api_warnings init validate_object get_k8s_ref get_nested_string
    get_nested_field get_child get_field get_k8s_annotation ◌>>=◌ ◌>>◌
    get_k8s_annotations_with_regex get_nested_string_map_copy select get_nested_object
    react_to_error wrap_int64 get_status_field_str
claim_is_fine = refl

run_validate_ready_example : fine.ready ≡ true
run_validate_ready_example =
    run_validate_ready code (λ o v h. validate_object-Verdict surroundings true false o v h) ""
      (some (claim ∷ [])) none fine [] claim_is_fine refl

calc_remote_objects_for_diff-NewAs_example :
    NewAs differ 7 (get_diff_ref claims claim) (calc_remote_objects_for_diff differ (claim ∷ []) [])
calc_remote_objects_for_diff-NewAs_example =
    calc_remote_objects_for_diff-NewAs differ claim (claim ∷ []) [] here
