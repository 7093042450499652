-- ===== src/Validation/Laws/Object.antt =====
-- What the guarded part of `ValidateObject` keeps, in pkg/validation/validation.go.
use kluctl.Prelude.{refl, Bool, false, Option, none, some, negsuc}
use kluctl.Types.ObjectRef.{ObjectRef, GroupVersionKind}
use kluctl.Uo.Nested.{UnstructuredObject}
use kluctl.Validation.Flow.{ValidateResult, M}
use kluctl.Validation.Flow.Laws.{
  Keeps, ◌then_keep◌, if-Keeps, skip-Keeps, leave-Keeps, getter-Keeps, found_of-Keeps,
}
use kluctl.Validation.Status.{react_ignore}
use kluctl.Validation.Object.{
  SchemaAnswer, schema_found, schema_missing, schema_error, Surroundings, status_of,
  wait_for_status, ask_schema, ask_cluster, validate_without_status, validate_kind, validate_status,
  validate_found, validate_rest,
}
use kluctl.Validation.Laws.Kept.{
  Kept, add_error-Keep, add_not_ready-Keep, get_status_field_int-Keep,
}
use kluctl.Validation.Laws.Kinds.{
  validate_pod-Keep, validate_job-Keep, validate_deployment-Keep, validate_pvc-Keep,
  validate_service-Keep, validate_daemon_set-Keep, validate_crd-Keep, validate_stateful_set-Keep,
  validate_machine_deployment-Keep,
}

module _ {nre : Bool} {Holds Raised : ValidateResult → Type 0} (kept : Kept nre Holds Raised)
    (env : Surroundings) (ref : ObjectRef) (o : UnstructuredObject) where
  abbrev Keep : {A : Type 0} → M A → Type 0
  Keep = Keeps Holds Raised

  wait_for_status-Keep :
      (found : Option (Option UnstructuredObject)) → Keep (wait_for_status env ref nre o found)
  wait_for_status-Keep none = leave-Keeps
  wait_for_status-Keep (some s) = if-Keeps _ leave-Keeps (add_not_ready-Keep kept ref _)

  ask_schema-Keep : (answer : SchemaAnswer) → Keep (ask_schema env ref nre o answer)
  ask_schema-Keep (schema_error message) = add_error-Keep kept ref message
  ask_schema-Keep schema_missing = leave-Keeps
  ask_schema-Keep (schema_found s) = found_of-Keeps _ then_keep wait_for_status-Keep

  ask_cluster-Keep :
      (cluster : Option (GroupVersionKind → SchemaAnswer))
      → Keep (ask_cluster env ref nre o cluster)
  ask_cluster-Keep none = leave-Keeps
  ask_cluster-Keep (some schema_for) = ask_schema-Keep _

  validate_kind-Keep :
      (gvk : GroupVersionKind) (status : UnstructuredObject)
      → Keep (validate_kind env ref nre o gvk status)
  unfolding validate_kind
  validate_kind-Keep gvk status = if-Keeps _ (validate_pod-Keep kept ref status) (
      if-Keeps _ (validate_job-Keep kept ref status) (
        if-Keeps _ (validate_deployment-Keep kept ref env.schema o status) (
          if-Keeps _ (validate_pvc-Keep kept ref status) (
            if-Keeps _ (validate_service-Keep kept ref o status) (
              if-Keeps _ (validate_daemon_set-Keep kept ref env.percent_of o status) (
                if-Keeps _ (validate_crd-Keep kept ref status) (
                  if-Keeps _ (validate_stateful_set-Keep kept ref env.schema o status) (
                    if-Keeps _ (validate_machine_deployment-Keep kept ref status) skip-Keeps))))))))

  validate_status-Keep : (status : UnstructuredObject) → Keep (validate_status env ref nre o status)
  unfolding validate_status
  validate_status-Keep status =
      get_status_field_int-Keep kept ref "observedGeneration" react_ignore false (negsuc 0) status
        refl
      then_keep λ observed.
          if-Keeps _ (add_not_ready-Keep kept ref _)
            (getter-Keeps _ then_keep λ gvk. validate_kind-Keep gvk status)

  validate_found-Keep :
      (force : Bool) (status : Option UnstructuredObject)
      → Keep (validate_found env ref nre o force status)
  unfolding validate_without_status
  validate_found-Keep force none =
      if-Keeps force (add_not_ready-Keep kept ref _) (ask_cluster-Keep env.cluster)
  validate_found-Keep force (some status) = validate_status-Keep status

  pub validate_rest-Keep : (force : Bool) → Keep (validate_rest env ref nre o force)
  unfolding validate_rest
  validate_rest-Keep force =
      found_of-Keeps _ then_keep λ found. validate_found-Keep force (status_of found)
