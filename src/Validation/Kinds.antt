-- ===== src/Validation/Kinds.antt =====
-- pkg/validation/validation.go: what `ValidateObject` checks of an object of each known kind.
use Prim.Native.String.{◌++◌ as str_append}
use text.Mathlib.Text.{◌==◌ as str_eq}
use kluctl.Prelude.{
  String, Bool, true, false, ◌&&◌, not, Option, none, some, List, [], ◌∷◌, if◌then◌else◌, ℤ, pos,
  ◌-ℤ◌, int_ltb, int_beq, wrap_int64, Result, ok, err, panicked,
}
use kluctl.Types.ObjectRef.{ObjectRef}
use kluctl.Uo.Value.{Value, null, int, Items, nil, cons}
use kluctl.Uo.Child.{name, KeyPath}
use kluctl.Uo.Nested.{UnstructuredObject, get_nested_field}
use kluctl.Uo.Typed.{get_nested_string, get_nested_list, get_nested_object_list}
use kluctl.Uo.JsonPath.{show_int}
use kluctl.Uo.K8s.{Schema, get_nested_int_no_err}
use kluctl.Validation.Flow.{M, ◌>>=◌, ◌>>◌, pure, skip, leave, crash, when, found_of, add_error}
use kluctl.Validation.Status.{
  get_message, react_ignore, react_error, react_not_ready, string_or_empty_at, add_not_ready,
  react_to_error, get_condition, get_status_field_str, get_status_field_int,
}
use kluctl.Validation.Percent.{value_from_int_or_percent}

abbrev pub or_empty : Option String → String
or_empty none = ""
or_empty (some s) = s

abbrev pub or_int : Option ℤ → ℤ → ℤ
or_int none d = d
or_int (some i) d = i

abbrev pub no_items : Option Items → Bool
no_items none = true
no_items (some nil) = true
no_items (some (cons v l)) = false

abbrev pub has_replicas : Option ℤ → Bool
has_replicas none = false
has_replicas (some i) = not (int_beq i (pos 0))

-- A missing `maxUnavailable`, and a null one, is 1.
abbrev pub or_one : Option Value → Value
or_one none = int (pos 1)
or_one (some null) = int (pos 1)
or_one (some v) = v

abbrev pub or_total : Result ℤ → ℤ → M ℤ
or_total (ok i) total = pure i
or_total (err e) total = pure total
or_total panicked total = crash

abbrev pub out_of : String → ℤ → String → ℤ → String → String
out_of before a between b after =
    str_append before (str_append (show_int a) (str_append between (str_append (show_int b) after)))

abbrev fewer_replicas : ℤ → ℤ → String
fewer_replicas ready all = out_of "readyReplicas (" ready ") is less then replicas (" all ")"

abbrev pub spec : List String → KeyPath
spec [] = name "spec" ∷ []
spec (a ∷ []) = name "spec" ∷ name a ∷ []
spec (a ∷ b ∷ []) = name "spec" ∷ name a ∷ name b ∷ []
spec (a ∷ b ∷ c ∷ _) = name "spec" ∷ name a ∷ name b ∷ name c ∷ []

module _ (ref : ObjectRef) (nre : Bool) where
  -- A getter's error is an error of the object, and ends the validation.
  abbrev pub must : {A : Type 0} → Result (Option A) → M (Option A)
  must (ok found) = pure found
  must (err e) = do react_to_error ref nre e react_error true; pure none
  must panicked = crash

  unfoldable pub container_exits : List UnstructuredObject → M (Unit {0})
  container_exits [] = skip
  container_exits (cs ∷ l) = do
    container ← must (get_nested_string cs (name "name" ∷ []))
    reason ← must (get_nested_string cs (name "state" ∷ name "terminated" ∷ name "reason" ∷ []))
    when (str_eq (or_empty reason) "Error") (
        add_error ref
          (str_append "container " (str_append (or_empty container) " exited with error")))
    container_exits l

  abbrev pub containers : Option (List UnstructuredObject) → List UnstructuredObject
  containers none = []
  containers (some l) = l

  unfoldable pub validate_pod : UnstructuredObject → M (Unit {0})
  unfolding container_exits
  validate_pod status = do
    l ← must (get_nested_object_list status (name "containerStatuses" ∷ []))
    container_exits (containers l)
    rc ← get_condition ref nre status "Ready" react_not_ready false
    if str_eq rc.status "False" && str_eq rc.reason "PodCompleted"
        then leave
        else add_not_ready ref nre "Not ready"

  unfoldable pub validate_job : UnstructuredObject → M (Unit {0})
  unfolding get_message
  validate_job status = do
    f ← get_condition ref nre status "Failed" react_ignore false
    if str_eq f.status "True" then add_error ref (get_message f "Failed") else do
      c ← get_condition ref nre status "Complete" react_ignore false
      when (not (str_eq c.status "True")) (add_not_ready ref nre (get_message c "Not completed"))

  -- `readyReplicas` against `replicas`
  abbrev pub replicas_are_ready : ℤ → ℤ → M (Unit {0})
  replicas_are_ready ready all =
      when (int_ltb ready all) (add_not_ready ref nre (fewer_replicas ready all))

  unfoldable pub validate_deployment :
      Schema → UnstructuredObject → UnstructuredObject → M (Unit {0})
  unfolding get_status_field_int
  validate_deployment schema o status =
      when (has_replicas (get_nested_int_no_err schema o (spec ("replicas" ∷ [])))) (do
        ready ← get_status_field_int ref nre status "readyReplicas" react_not_ready true (pos 0)
        all ← get_status_field_int ref nre status "replicas" react_not_ready true (pos 0)
        replicas_are_ready ready all)

  unfoldable pub validate_pvc : UnstructuredObject → M (Unit {0})
  validate_pvc status = do
    phase ← get_status_field_str ref nre status "phase" react_not_ready true ""
    when (not (str_eq phase "Bound")) (add_not_ready ref nre "Volume is not bound")

  abbrev pub validate_ingress : UnstructuredObject → M (Unit {0})
  validate_ingress status = do
    ingress ← found_of (get_nested_list status (name "loadBalancer" ∷ name "ingress" ∷ []))
    when (no_items ingress) (add_not_ready ref nre "Not ready")

  abbrev pub validate_load_balancer : UnstructuredObject → UnstructuredObject → M (Unit {0})
  validate_load_balancer o status = do
    external ← found_of (get_nested_list o (spec ("externalIPs" ∷ [])))
    when (no_items external) (validate_ingress status)

  unfoldable pub validate_service : UnstructuredObject → UnstructuredObject → M (Unit {0})
  validate_service o status = do
    typ ← string_or_empty_at o (spec ("type" ∷ []))
    when (not (str_eq typ "ExternalName")) (do
      ip ← string_or_empty_at o (spec ("clusterIP" ∷ []))
      if str_eq ip ""
          then add_error ref "Service does not have a cluster IP"
          else when (str_eq typ "LoadBalancer") (validate_load_balancer o status))

  abbrev pub validate_unavailable :
      (ℤ → ℤ → ℤ) → UnstructuredObject → UnstructuredObject → ℤ → M (Unit {0})
  validate_unavailable percent_of o status desired = do
    found ← found_of (get_nested_field o (spec ("updateStrategy" ∷ "maxUnavailable" ∷ [])))
    unavailable ← or_total (value_from_int_or_percent percent_of (or_one found) desired) desired
    let expected = wrap_int64 (desired -ℤ unavailable)
    ready ← get_status_field_int ref nre status "numberReady" react_not_ready true (pos 0)
    when (int_ltb ready expected) (
        add_not_ready ref nre
          (out_of "DaemonSet is not ready. " ready " out of " expected " expected pods are ready"))

  unfoldable pub validate_daemon_set :
      (ℤ → ℤ → ℤ) → UnstructuredObject → UnstructuredObject → M (Unit {0})
  validate_daemon_set percent_of o status = do
    strategy ← string_or_empty_at o (spec ("updateStrategy" ∷ "type" ∷ []))
    when (str_eq strategy "RollingUpdate") (do
      updated ←
          get_status_field_int ref nre status "updatedNumberScheduled" react_not_ready true (pos 0)
      desired ←
          get_status_field_int ref nre status "desiredNumberScheduled" react_not_ready true (pos 0)
      if int_beq updated desired
          then validate_unavailable percent_of o status desired
          else add_not_ready ref nre (
              out_of "DaemonSet is not ready. " updated " out of " desired
                " expected pods have been scheduled"))

  unfoldable pub validate_crd : UnstructuredObject → M (Unit {0})
  validate_crd status = do
    c ← get_condition ref nre status "Established" react_ignore false
    when (not (str_eq c.status "True")) (do
      d ← get_condition ref nre status "NamesAccepted" react_not_ready true
      when (not (str_eq d.status "False")) (add_not_ready ref nre "CRD is not ready"))

  unfoldable pub validate_stateful_set :
      Schema → UnstructuredObject → UnstructuredObject → M (Unit {0})
  validate_stateful_set schema o status = do
    strategy ← string_or_empty_at o (spec ("updateStrategy" ∷ "type" ∷ []))
    let rolling = spec ("updateStrategy" ∷ "rollingUpdate" ∷ "partition" ∷ [])
    let partition = or_int (get_nested_int_no_err schema o rolling) (pos 0)
    let replicas = or_int (get_nested_int_no_err schema o (spec ("replicas" ∷ []))) (pos 1)
    let expected = wrap_int64 (replicas -ℤ partition)
    when (str_eq strategy "RollingUpdate") (do
      updated ← get_status_field_int ref nre status "updatedReplicas" react_not_ready true (pos 0)
      if int_beq updated expected
          then (do
            ready ← get_status_field_int ref nre status "readyReplicas" react_not_ready true (pos 0)
            when (not (int_beq ready replicas)) (
                add_not_ready ref nre (
                  out_of "StatefulSet is not ready. " ready " out of " replicas
                    " expected pods are ready")))
          else add_not_ready ref nre (
              out_of "StatefulSet is not ready. " updated " out of " expected
                " expected pods have been scheduled"))

  abbrev pub must_be_true : UnstructuredObject → String → M (Unit {0})
  must_be_true status typ = do
    c ← get_condition ref nre status typ react_not_ready true
    when (not (str_eq c.status "True")) (add_not_ready ref nre (get_message c "Not ready"))

  unfoldable pub validate_machine_deployment : UnstructuredObject → M (Unit {0})
  validate_machine_deployment status = do
    must_be_true status "Ready"
    must_be_true status "Available"
    ready ← get_status_field_int ref nre status "readyReplicas" react_not_ready true (pos 0)
    all ← get_status_field_int ref nre status "replicas" react_not_ready true (pos 0)
    unavailable ←
        get_status_field_int ref nre status "unavailableReplicas" react_ignore false (pos 0)
    replicas_are_ready ready all
    when (not (int_beq unavailable (pos 0))) (
        add_not_ready ref nre
          (str_append "unavailableReplicas (" (str_append (show_int unavailable) ") != 0")))
