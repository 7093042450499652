-- ===== src/Deployment/Apply.antt =====
-- pkg/deployment/utils/apply_utils.go: the state of one `ApplyUtil` and the methods that record results.
-- The methods of one `ApplyUtil` run one after another; what it shares with the others (errors, abort
-- signal, namespaces, CRDs, cluster) stands in its state too. A mutex makes each recording one step.
pub mod Object
pub mod Wait
pub mod Hooks
pub mod Item
pub mod Parallel
pub mod Deletions
use Prim.Native.String.{◌++◌}
use kluctl.Prelude.{
  String, ℕ, ◌+◌, Bool, true, false, ◌&&◌, ◌||◌, not, Option, none, some, List, [], ◌∷◌,
  ◌++◌ as append, if◌then◌else◌, Map, lookup, insert, has, add, contains, length,
}
use kluctl.Types.ObjectRef.{ObjectRef, GroupVersionKind, GroupKind, ref_eq, to_string, group_kind}
use kluctl.K8s.{
  K8sCluster, Outcome, ApiError, Reason, deadline_exceeded, canceled, not_found, errorf,
  is_not_found, delete_single_object,
}
use kluctl.Deployment.Errors.{
  DeploymentErrorsAndWarnings, add_error, add_warning, add_api_warnings, had_error,
}
use kluctl.Utils.Parse.{parse_bool_or_false}
use text.Mathlib.Text.{◌==◌ as str_eq}

pub record ApplyUtilOptions : Type 0 where
  pub force_apply : Bool
  pub replace_on_error : Bool
  pub force_replace_on_error : Bool
  pub dry_run : Bool
  pub abort_on_error : Bool
  pub readiness_timeout : ℕ
  pub no_wait : Bool

-- What the code does with objects (pkg/utils/uo), on objects whose metadata can be read: there the
-- getters do not panic.
pub record ObjectApi (Obj : Type 0) : Type 0 where
  pub ref_of : Obj → ObjectRef
  pub annotation : Obj → String → Option String
  pub set_name : String → Obj → Obj
  pub set_namespace : String → Obj → Obj
  pub resource_version : Obj → String
  pub set_resource_version : String → Obj → Obj
  -- `ReplaceKeys` and `ReplaceValues`, whose errors are dropped
  pub replace_keys : String → String → Obj → Obj
  pub replace_values : String → String → Obj → Obj
  pub owner_references : Obj → List Obj
  pub managed_fields : Obj → List Obj
  -- the `manager` of an entry of the managed fields, empty if it has none
  pub manager : Obj → String
  -- the kinds that the object defines, if it decodes as a CustomResourceDefinition
  pub crd_kinds : Obj → List GroupVersionKind

-- `LostOwnership` of pkg/diff/managed_fields.go
pub record LostOwnership : Type 0 where
  pub field : String
  pub message : String

-- The results of `diff.ResolveFieldManagerConflicts`.
pub data Resolution (Obj : Type 0) : Type 0 where
  resolved : Obj → List LostOwnership → Resolution Obj
  unresolved : ApiError → Resolution Obj

-- `validation.ValidateObject`, as far as waiting looks at its result.
pub record Readiness : Type 0 where
  pub ready : Bool
  pub errors : List String

-- What a `select` receives: the half second is over, the timer has fired, or the context is done.
pub data Selected : Type 0 where
  tick : Selected
  timed_out : Selected
  cancelled : Selected

-- What an `ApplyUtil` is made with: the cluster, the remote objects, the options, and the code of
-- other packages that it calls.
pub record Env (Obj World : Type 0) : Type 0 where
  pub objects : ObjectApi Obj
  pub k : K8sCluster Obj World
  pub remote_objects : Map ObjectRef Obj
  pub remote_namespaces : Map String Obj
  pub o : ApplyUtilOptions
  pub gk_string : GroupKind → String
  pub sprintf : String → String
  pub random_string : World → String
  pub resolve_conflicts : Obj → Obj → ApiError → Resolution Obj
  pub validate_object : Obj → Readiness
  -- What the `select` of `WaitReadiness` receives, for an object and a timeout, in each round of the
  -- loop, and for how many rounds the loop is run.
  pub selected : ObjectRef → ℕ → ℕ → Selected
  pub rounds : ObjectRef → ℕ → ℕ

pub record ApplyUtil (Obj World : Type 0) : Type 0 where
  pub dew : DeploymentErrorsAndWarnings
  pub error_count : ℕ
  pub warning_count : ℕ
  pub new_objects : Map ObjectRef Obj
  pub applied_objects : Map ObjectRef Obj
  pub applied_hook_objects : Map ObjectRef Obj
  pub deleted_objects : List ObjectRef
  pub deleted_hook_objects : List ObjectRef
  pub abort_signal : Bool
  pub all_namespaces : List String
  pub all_crds : List GroupVersionKind
  pub world : World

-- `isSkipDelete` of pkg/deployment/utils/delete_utils.go
unfoldable pub is_skip_delete : {Obj : Type 0} → ObjectApi Obj → Obj → Bool
unfolding parse_bool_or_false
is_skip_delete objects x =
    if parse_bool_or_false (objects.annotation x "kluctl.io/skip-delete")
    then true
    else elim (objects.annotation x "helm.sh/resource-policy") [
      | none ↦ false
      | some p ↦ str_eq p "keep"
    ]

abbrev is_abort : Reason → Bool
is_abort deadline_exceeded = true
is_abort canceled = true
is_abort _ = false

abbrev pub is_some {ℓ} : {A : Type ℓ} → Option A → Bool
is_some none = false
is_some (some a) = true

module _ {Obj World : Type 0} (env : Env Obj World) where
  open env use {objects, k, remote_objects, o}
  open objects use {ref_of}

  unfoldable pub handle_result : Obj → Bool → ApplyUtil Obj World → ApplyUtil Obj World
  handle_result applied hook a =
      let ref = ref_of applied in
      record a {
        applied_hook_objects =
            if hook then insert ref applied a.applied_hook_objects else a.applied_hook_objects;
        applied_objects = insert ref applied a.applied_objects;
        new_objects =
            if not hook && not (is_some (lookup ref remote_objects))
            then insert ref applied a.new_objects
            else a.new_objects;
      }

  unfoldable pub handle_api_warnings :
      ObjectRef → List String → ApplyUtil Obj World → ApplyUtil Obj World
  handle_api_warnings ref warnings a = record a {
    dew = add_api_warnings env.sprintf ref warnings a.dew;
    warning_count = a.warning_count + length warnings;
  }

  unfoldable pub handle_warning : ObjectRef → String → ApplyUtil Obj World → ApplyUtil Obj World
  handle_warning ref warning a = record a {
    dew = add_warning ref warning a.dew;
    warning_count = a.warning_count + 1;
  }

  unfoldable pub handle_error : ObjectRef → ApiError → ApplyUtil Obj World → ApplyUtil Obj World
  handle_error ref err a = record a {
    abort_signal =
        if is_abort err.reason then true else if o.abort_on_error then true else a.abort_signal;
    dew = add_error ref err.message a.dew;
    error_count = a.error_count + 1;
  }

  -- The state after a request, with its warnings recorded.
  unfoldable pub after_request :
      ObjectRef → Outcome Obj World → ApplyUtil Obj World → ApplyUtil Obj World
  unfolding handle_api_warnings
  after_request ref r a = handle_api_warnings ref r.warnings (record a { world = r.world })

  unfoldable pub mark_deleted : ObjectRef → Bool → ApplyUtil Obj World → ApplyUtil Obj World
  mark_deleted ref hook a =
      if hook
      then record a { deleted_hook_objects = add ref a.deleted_hook_objects }
      else record a { deleted_objects = add ref a.deleted_objects }

  -- Whether a deletion that found nothing is simulated: for a hook by the applied objects, and for
  -- others by the applied hooks, as the source has it.
  unfoldable pub was_applied : ObjectRef → Bool → ApplyUtil Obj World → Bool
  was_applied ref hook a =
      if hook then has ref a.applied_objects else has ref a.applied_hook_objects

  unfoldable pub after_delete :
      ObjectRef → Bool → Option ApiError → ApplyUtil Obj World → Bool × ApplyUtil Obj World
  unfolding mark_deleted was_applied handle_error
  after_delete ref hook none a = (true, mark_deleted ref hook a)
  after_delete ref hook (some err) a =
      if not (is_not_found err)
      then (false, handle_error ref err a)
      else if not o.dry_run
      then (false, a)
      else if not (was_applied ref hook a)
      then (false, a)
      else (true, mark_deleted ref hook a)

  -- `ApplyUtil.DeleteObject`
  unfoldable pub delete_object : ObjectRef → Bool → ApplyUtil Obj World → Bool × ApplyUtil Obj World
  unfolding after_request after_delete
  delete_object ref hook a =
      let r = delete_single_object k o.dry_run false false ref a.world in
      after_delete ref hook r.error (after_request ref r a)
