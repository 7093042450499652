-- ===== src/Validation/Laws/Kinds.antt =====
-- What the checks of each kind keep, in pkg/validation/validation.go.
use kluctl.Prelude.{
  String, refl, Bool, true, false, Option, none, List, [], ◌∷◌, Result, ok, err, panicked, ℤ, pos,
}
use kluctl.Types.ObjectRef.{ObjectRef}
use kluctl.Uo.Nested.{UnstructuredObject}
use kluctl.Uo.K8s.{Schema}
use kluctl.Validation.Flow.{ValidateResult, M, when}
use kluctl.Validation.Flow.Laws.{
  Keeps, ◌then_keep◌, ◌also_keep◌, if-Keeps, when-Keeps, pure-Keeps, skip-Keeps, leave-Keeps,
  found_of-Keeps,
}
use kluctl.Validation.Status.{
  react_ignore, react_error, react_not_ready, add_not_ready, get_status_field_int,
}
use kluctl.Validation.Kinds.{
  or_total, must, containers, container_exits, validate_pod, validate_job, validate_deployment,
  validate_pvc, validate_load_balancer, validate_service, validate_daemon_set, validate_crd,
  validate_stateful_set, must_be_true, validate_machine_deployment,
}
use kluctl.Validation.Laws.Kept.{
  Kept, add_error-Keep, add_not_ready-Keep, string_or_empty_at-Keep, react_to_error-Keep,
  get_condition-Keep, get_status_field_str-Keep, get_status_field_int-Keep,
}

or_total-Keeps :
    {Holds Raised : ValidateResult → Type 0} (r : Result ℤ) (total : ℤ)
    → Keeps Holds Raised (or_total r total)
or_total-Keeps (ok i) total = pure-Keeps i
or_total-Keeps (err e) total = pure-Keeps total
or_total-Keeps panicked total = record { keep = λ v h. h }

module _ {nre : Bool} {Holds Raised : ValidateResult → Type 0} (kept : Kept nre Holds Raised)
    (ref : ObjectRef) where
  abbrev Keep : {A : Type 0} → M A → Type 0
  Keep = Keeps Holds Raised

  not_ready_when : (b : Bool) (message : String) → Keep (when b (add_not_ready ref nre message))
  not_ready_when b message = when-Keeps b (add_not_ready-Keep kept ref message)

  must-Keep : {A : Type 0} (r : Result (Option A)) → Keep (must ref nre r)
  must-Keep (ok found) = pure-Keeps found
  must-Keep (err e) = react_to_error-Keep kept ref e react_error true refl also_keep pure-Keeps none
  must-Keep panicked = record { keep = λ v h. h }

  container_exits-Keep : (l : List UnstructuredObject) → Keep (container_exits ref nre l)
  unfolding container_exits
  container_exits-Keep [] = skip-Keeps
  container_exits-Keep (cs ∷ l) = must-Keep _ then_keep λ container. must-Keep _ then_keep λ reason.
      when-Keeps _ (add_error-Keep kept ref _) also_keep container_exits-Keep l

  pub validate_pod-Keep : (status : UnstructuredObject) → Keep (validate_pod ref nre status)
  unfolding validate_pod
  validate_pod-Keep status = must-Keep _ then_keep λ l.
      container_exits-Keep (containers ref nre l)
      also_keep get_condition-Keep kept ref status "Ready" react_not_ready false refl
      then_keep λ rc. if-Keeps _ leave-Keeps (add_not_ready-Keep kept ref "Not ready")

  pub validate_job-Keep : (status : UnstructuredObject) → Keep (validate_job ref nre status)
  unfolding validate_job
  validate_job-Keep status =
      get_condition-Keep kept ref status "Failed" react_ignore false refl then_keep λ f.
      if-Keeps _ (add_error-Keep kept ref _) (
        get_condition-Keep kept ref status "Complete" react_ignore false refl then_keep λ c.
        not_ready_when _ _)

  pub validate_deployment-Keep :
      (schema : Schema) (o status : UnstructuredObject)
      → Keep (validate_deployment ref nre schema o status)
  unfolding validate_deployment
  validate_deployment-Keep schema o status = when-Keeps _ (
      get_status_field_int-Keep kept ref "readyReplicas" react_not_ready true (pos 0) status refl
      then_keep λ ready.
          get_status_field_int-Keep kept ref "replicas" react_not_ready true (pos 0) status refl
          then_keep λ all. not_ready_when _ _)

  pub validate_pvc-Keep : (status : UnstructuredObject) → Keep (validate_pvc ref nre status)
  unfolding validate_pvc
  validate_pvc-Keep status =
      get_status_field_str-Keep kept ref status "phase" react_not_ready true "" refl
      then_keep λ phase. not_ready_when _ _

  validate_load_balancer-Keep :
      (o status : UnstructuredObject) → Keep (validate_load_balancer ref nre o status)
  validate_load_balancer-Keep o status = found_of-Keeps _ then_keep λ external.
      when-Keeps _ (found_of-Keeps _ then_keep λ ingress. not_ready_when _ _)

  pub validate_service-Keep :
      (o status : UnstructuredObject) → Keep (validate_service ref nre o status)
  unfolding validate_service
  validate_service-Keep o status = string_or_empty_at-Keep kept ref o _ then_keep λ typ.
      when-Keeps _ (
        string_or_empty_at-Keep kept ref o _ then_keep λ ip.
        if-Keeps _ (add_error-Keep kept ref _)
          (when-Keeps _ (validate_load_balancer-Keep o status)))

  -- The number of a required field.
  required_int :
      (status : UnstructuredObject) (field : String)
      → Keep (get_status_field_int ref nre status field react_not_ready true (pos 0))
  required_int status field =
      get_status_field_int-Keep kept ref field react_not_ready true (pos 0) status refl

  pub validate_daemon_set-Keep :
      (percent_of : ℤ → ℤ → ℤ) (o status : UnstructuredObject)
      → Keep (validate_daemon_set ref nre percent_of o status)
  unfolding validate_daemon_set
  validate_daemon_set-Keep percent_of o status =
      string_or_empty_at-Keep kept ref o _ then_keep λ strategy. when-Keeps _ (
        required_int status "updatedNumberScheduled" then_keep λ updated.
        required_int status "desiredNumberScheduled" then_keep λ desired.
        if-Keeps _
          (found_of-Keeps _ then_keep λ found. or_total-Keeps _ _ then_keep λ unavailable.
            required_int status "numberReady" then_keep λ ready. not_ready_when _ _)
          (add_not_ready-Keep kept ref _))

  pub validate_crd-Keep : (status : UnstructuredObject) → Keep (validate_crd ref nre status)
  unfolding validate_crd
  validate_crd-Keep status =
      get_condition-Keep kept ref status "Established" react_ignore false refl then_keep λ c.
      when-Keeps _ (
        get_condition-Keep kept ref status "NamesAccepted" react_not_ready true refl then_keep λ d.
        not_ready_when _ _)

  pub validate_stateful_set-Keep :
      (schema : Schema) (o status : UnstructuredObject)
      → Keep (validate_stateful_set ref nre schema o status)
  unfolding validate_stateful_set
  validate_stateful_set-Keep schema o status =
      string_or_empty_at-Keep kept ref o _ then_keep λ strategy. when-Keeps _ (
        required_int status "updatedReplicas" then_keep λ updated.
        if-Keeps _ (required_int status "readyReplicas" then_keep λ ready. not_ready_when _ _)
          (add_not_ready-Keep kept ref _))

  must_be_true-Keep :
      (status : UnstructuredObject) (typ : String) → Keep (must_be_true ref nre status typ)
  must_be_true-Keep status typ =
      get_condition-Keep kept ref status typ react_not_ready true refl then_keep λ c.
      not_ready_when _ _

  pub validate_machine_deployment-Keep :
      (status : UnstructuredObject) → Keep (validate_machine_deployment ref nre status)
  unfolding validate_machine_deployment
  validate_machine_deployment-Keep status =
      must_be_true-Keep status "Ready"
      also_keep must_be_true-Keep status "Available"
      also_keep required_int status "readyReplicas"
      then_keep λ ready. required_int status "replicas" then_keep λ all.
          get_status_field_int-Keep kept ref "unavailableReplicas" react_ignore false (pos 0) status
            refl
          then_keep λ unavailable. not_ready_when _ _ also_keep not_ready_when _ _
