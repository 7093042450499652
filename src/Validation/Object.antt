-- ===== src/Validation/Object.antt =====
-- pkg/validation/validation.go: `ValidateObject`.
use Prim.Native.Char.{code}
use Prim.Native.String.{◌++◌ as str_append}
use text.Mathlib.Text.{◌==◌ as str_eq}
use kluctl.Prelude.{
  String, Bool, true, false, ◌&&◌, ◌||◌, not, Option, none, some, [], ◌∷◌, if◌then◌else◌, nat_beq,
  ℤ, negsuc, int_beq, Map, Result, ok, ◌>>=◌ as ◌>>=r◌,
}
use kluctl.Types.ObjectRef.{ObjectRef, GroupVersionKind}
use kluctl.Utils.Parse.{parse_bool_or_false}
use kluctl.Uo.Child.{name}
use kluctl.Uo.Nested.{UnstructuredObject}
use kluctl.Uo.Typed.{get_nested_object}
use kluctl.Uo.K8s.{
  Schema, get_k8s_gvk, get_k8s_ref, get_k8s_annotation, get_k8s_annotations_with_regex,
  get_k8s_generation,
}
use kluctl.Validation.Flow.{
  ValidateResult, Flow, next, returned, failed, crashed, M, ◌>>=◌, ◌>>◌, skip, leave, getter,
  found_of, add_error, add_result,
}
use kluctl.Validation.Status.{react_ignore, add_not_ready, get_status_field_int}
use kluctl.Validation.Kinds.{
  validate_pod, validate_job, validate_deployment, validate_pvc, validate_service,
  validate_daemon_set, validate_crd, validate_stateful_set, validate_machine_deployment,
}

-- What `GetSchemaForGVK` says of a kind.
pub data SchemaAnswer : Type 0 where
  schema_found : UnstructuredObject → SchemaAnswer
  schema_missing : SchemaAnswer
  schema_error : String → SchemaAnswer

-- What the function asks of the cluster, which may be nil, of the clock and of float arithmetic, and
-- how a recovered panic prints.
pub record Surroundings : Type 0 where
  pub schema : Schema
  pub cluster : Option (GroupVersionKind → SchemaAnswer)
  -- whether the object was created more than 15 seconds ago
  pub is_old : UnstructuredObject → Bool
  pub percent_of : ℤ → ℤ → ℤ
  pub panic_text : String

-- A dot of the expression matches any character but a newline.
unfoldable pub starts_like : String → String → Bool
starts_like String.[] s = true
starts_like (String.◌∷◌ c p) String.[] = false
starts_like (String.◌∷◌ c p) (String.◌∷◌ d s) =
    (nat_beq (code c) (code d) || (nat_beq (code c) b'.' && not (nat_beq (code d) 10)))
    && starts_like p s

-- `resultAnnotation`
unfoldable pub is_result_annotation : String → Bool
unfolding starts_like
is_result_annotation k = starts_like "validate-result.kluctl.io/" k

unfoldable pub add_results : ObjectRef → Map String String → M (Unit {0})
add_results ref [] = skip
add_results ref ((k, v) ∷ m) = do
  add_result (record { ref = ref; annotation = k; message = v })
  add_results ref m

abbrev pub status_of : Option (Option UnstructuredObject) → Option UnstructuredObject
status_of none = none
status_of (some s) = s

abbrev pub kind_is : GroupVersionKind → String → String → Bool
kind_is gvk group kind = str_eq gvk.group group && str_eq gvk.kind kind

module _ (env : Surroundings) (ref : ObjectRef) (nre : Bool) (o : UnstructuredObject) where
  abbrev pub wait_for_status : Option (Option UnstructuredObject) → M (Unit {0})
  wait_for_status none = leave
  wait_for_status (some s) =
      if env.is_old o then leave else add_not_ready ref nre "no status available yet"

  abbrev pub ask_schema : SchemaAnswer → M (Unit {0})
  ask_schema (schema_error message) = add_error ref message
  ask_schema schema_missing = leave
  ask_schema (schema_found s) = do
    found ← found_of (get_nested_object s (name "properties" ∷ name "status" ∷ []))
    wait_for_status found

  abbrev pub ask_cluster : Option (GroupVersionKind → SchemaAnswer) → M (Unit {0})
  ask_cluster none = leave
  ask_cluster (some schema_for) =
      ask_schema (schema_for (record { group = ref.group; version = ref.version; kind = ref.kind }))

  -- The checks of an object without a status.
  unfoldable pub validate_without_status : Bool → M (Unit {0})
  validate_without_status force_status_required =
      if force_status_required
      then add_not_ready ref nre "no status available yet"
      else ask_cluster env.cluster

  unfoldable pub validate_kind : GroupVersionKind → UnstructuredObject → M (Unit {0})
  unfolding validate_pod validate_job validate_deployment validate_pvc validate_service
      validate_daemon_set validate_crd validate_stateful_set validate_machine_deployment
  validate_kind gvk status =
      if kind_is gvk "" "Pod"
      then validate_pod ref nre status
      else if kind_is gvk "batch" "Job"
      then validate_job ref nre status
      else if kind_is gvk "apps" "Deployment"
      then validate_deployment ref nre env.schema o status
      else if kind_is gvk "" "PersistentVolumeClaim"
      then validate_pvc ref nre status
      else if kind_is gvk "" "Service"
      then validate_service ref nre o status
      else if kind_is gvk "apps" "DaemonSet"
      then validate_daemon_set ref nre env.percent_of o status
      else if kind_is gvk "apiextensions.k8s.io" "CustomResourceDefinition"
      then validate_crd ref nre status
      else if kind_is gvk "apps" "StatefulSet"
      then validate_stateful_set ref nre env.schema o status
      else if kind_is gvk "cluster.x-k8s.io" "MachineDeployment"
      then validate_machine_deployment ref nre status
      else skip

  -- The checks of an object with a status.
  unfoldable pub validate_status : UnstructuredObject → M (Unit {0})
  unfolding validate_kind
  validate_status status = do
    observed ←
        get_status_field_int ref nre status "observedGeneration" react_ignore false (negsuc 0)
    if not (int_beq observed (negsuc 0)) && not (int_beq observed (get_k8s_generation env.schema o))
        then add_not_ready ref nre "Waiting for reconciliation"
        else getter (get_k8s_gvk env.schema o) >>= λ gvk. validate_kind gvk status

  abbrev pub validate_found : Bool → Option UnstructuredObject → M (Unit {0})
  validate_found force_status_required none = validate_without_status force_status_required
  validate_found force_status_required (some status) = validate_status status

  -- The code behind the loop over the annotations.
  unfoldable pub validate_rest : Bool → M (Unit {0})
  unfolding validate_without_status validate_status
  validate_rest force_status_required = do
    found ← found_of (get_nested_object o (name "status" ∷ []))
    validate_found force_status_required (status_of found)

  -- All that the deferred recovery guards.
  unfoldable pub validate_guarded : Bool → M (Unit {0})
  unfolding is_result_annotation add_results validate_rest
  validate_guarded force_status_required = do
    m ← getter (get_k8s_annotations_with_regex o is_result_annotation)
    add_results ref m
    validate_rest force_status_required

-- The deferred function: it recovers from a panic.
abbrev pub recover : String → ObjectRef → Flow (Unit {0}) × ValidateResult → ValidateResult
recover text ref (next a, v) = v
recover text ref (returned, v) = v
recover text ref (failed, v) = record v { ready = false }
recover text ref (crashed, v) = (add_error ref (str_append "panic in ValidateObject: " text) v).1

abbrev pub all_is_good : ValidateResult
all_is_good = record { ready = true; warnings = []; errors = []; results = [] }

unfoldable pub validate_object :
    Surroundings → Bool → Bool → UnstructuredObject → Result ValidateResult
unfolding validate_guarded parse_bool_or_false
validate_object env nre force_status_required o = get_k8s_ref env.schema o >>=r λ ref.
    get_k8s_annotation o "kluctl.io/validate-ignore" >>=r λ ignore. ok (
      if parse_bool_or_false ignore
      then all_is_good
      else recover env.panic_text ref
          (validate_guarded env ref nre o force_status_required all_is_good))
