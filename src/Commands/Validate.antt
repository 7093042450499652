-- ===== src/Commands/Validate.antt =====
-- pkg/deployment/commands/validate.go: the validation of all objects of a deployment.
pub mod Sound
use text.Mathlib.Text.{◌==◌ as str_eq}
use kluctl.Prelude.{
  String, Bool, true, false, ◌||◌, ◌&&◌, not, Option, none, some, List, [], ◌∷◌, ◌++◌, Map, lookup,
  insert, has, if◌then◌else◌, Result, ok, err, panicked, ◌>>=◌,
}
use kluctl.Types.ObjectRef.{ObjectRef, ref_eq}
use kluctl.Deployment.Errors.{
  DeploymentError, DeploymentErrorsAndWarnings, init, get_errors_list, get_warnings_list,
}
use kluctl.Deployment.Apply.{Env, ApplyUtil}
use kluctl.Deployment.Apply.Hooks.{Hook, Texts, get_hook}
use kluctl.Deployment.Remote.{
  Remote, RemoteObjectUtils, new_remote_objects_util, update_remote_objects,
}
use kluctl.Deployment.Diff.{Differ, DiffUtil, ChangedObject, new_diff_util, diff_objects}
use kluctl.Validation.Flow.{ValidateResult}
use kluctl.Commands.{or_error}
use kluctl.Commands.Collect.{ResultObject}

-- `NewApplyUtil` of the first and only `ApplyDeploymentsUtil`.
unfoldable pub new_apply_util :
    {Obj World : Type 0} → DeploymentErrorsAndWarnings → World → ApplyUtil Obj World
new_apply_util dew w = record {
  dew = dew;
  error_count = 0;
  warning_count = 0;
  new_objects = [];
  applied_objects = [];
  applied_hook_objects = [];
  deleted_objects = [];
  deleted_hook_objects = [];
  abort_signal = false;
  all_namespaces = [];
  all_crds = [];
  world = w;
}

all_kept : List String → Bool
all_kept [] = true
all_kept (p ∷ ps) =
    if not (str_eq p "before-hook-creation") && not (str_eq p "hook-failed")
    then false
    else all_kept ps

-- `IsPersistent` of pkg/deployment/utils/hooks_util.go
unfoldable pub is_persistent : {Obj : Type 0} → Hook Obj → Bool
unfolding all_kept
is_persistent h = all_kept h.delete_policies

-- What the command is given: the rendered objects of a deployment collection, or the objects of an
-- earlier result.
pub record Inputs (Obj : Type 0) : Type 0 where
  pub refs : List ObjectRef
  pub rendered_objects : List Obj
  pub applied_objects : Map ObjectRef Obj

-- The code of other packages. `validate_object` is `ValidateObject`, for which what is not ready is an
-- error and which forces no status.
pub record Code (Obj World Ignore : Type 0) : Type 0 where
  pub env : Env Obj World
  pub texts : Texts
  pub remote : Remote Obj
  pub differ : Differ Obj Ignore
  pub validate_object : Obj → Result ValidateResult
  pub world : World

abbrev cons_some : {A : Type 0} → Option A → List A → List A
cons_some none l = l
cons_some (some a) l = a ∷ l

-- The entry of a later object stays.
abbrev put_some : {A : Type 0} → ObjectRef → Option A → Map ObjectRef A → Map ObjectRef A
put_some ref none m = m
put_some ref (some a) m = if has ref m then m else insert ref a m

-- The validation so far.
pub record Validating : Type 0 where
  pub ret : ValidateResult
  pub dew : DeploymentErrorsAndWarnings

module _ {Obj World Ignore : Type 0} (code : Code Obj World Ignore) where
  open code use {env, texts, remote, differ, validate_object, world}

  -- The loop over a deployment's objects; `ref_of` is `GetK8sRef`.
  unfoldable pub of_objects : List Obj → Inputs Obj
  of_objects [] = record { refs = []; rendered_objects = []; applied_objects = [] }
  of_objects (o ∷ l) =
      let i = of_objects l in
      record i { refs = env.objects.ref_of o ∷ i.refs; rendered_objects = o ∷ i.rendered_objects }

  -- The loop over the objects of a result: those of hooks are only looked up.
  unfoldable pub of_results : List (ResultObject Obj) → Inputs Obj
  of_results [] = record { refs = []; rendered_objects = []; applied_objects = [] }
  of_results (o ∷ l) =
      let i = of_results l in
      if o.hook then record i { refs = o.ref ∷ i.refs } else record {
        refs = o.ref ∷ i.refs;
        rendered_objects = cons_some o.rendered i.rendered_objects;
        applied_objects = put_some o.ref o.applied i.applied_objects;
      }

  unfoldable pub inputs : Option (List Obj) → Option (List (ResultObject Obj)) → Result (Inputs Obj)
  unfolding of_objects of_results
  inputs (some c) (some r) =
      err "passing both deployment collection and command result is not allowed"
  inputs (some c) none = ok (of_objects c)
  inputs none (some r) = ok (of_results r)
  inputs none none = err "either deployment collection or command result must be passed"

  abbrev pub with_result : ValidateResult → ValidateResult → ValidateResult
  with_result ret r = record {
    ready = if r.ready then ret.ready else false;
    errors = ret.errors ++ r.errors;
    warnings = ret.warnings ++ r.warnings;
    results = ret.results ++ r.results;
  }

  abbrev pub validate_found : ObjectRef → Validating → Option Obj → Result Validating
  validate_found ref s none = ok (record s {
    ret = record s.ret {
      errors = s.ret.errors ++ (record { ref = ref; message = "object not found" }) ∷ [];
    };
  })
  validate_found ref s (some x) =
      validate_object x >>= λ r. ok (record s { ret = with_result s.ret r })

  -- A hook that does not stay is not validated.
  abbrev pub is_transient : Option (Hook Obj) → Bool
  is_transient none = false
  is_transient (some h) = not (is_persistent h)

  unfoldable pub validate_one : RemoteObjectUtils Obj → Obj → Validating → Result Validating
  unfolding get_hook is_persistent new_apply_util
  validate_one u o s =
      let (h, a) = get_hook env texts o (new_apply_util s.dew world) in
      let s' = record s { dew = a.dew } in
      if is_transient h
      then ok s'
      else validate_found (env.objects.ref_of o) s' (lookup (env.objects.ref_of o) u.remote_objects)

  unfoldable pub validate_all : RemoteObjectUtils Obj → List Obj → Validating → Result Validating
  unfolding validate_one
  validate_all u [] s = ok s
  validate_all u (o ∷ l) s = validate_one u o s >>= λ s'. validate_all u l s'

  -- The comparison at the end, and the errors and warnings of the command.
  abbrev pub conclude :
      Inputs Obj → RemoteObjectUtils Obj → Validating → ValidateResult × List ChangedObject
  conclude i u s =
      let du = new_diff_util differ s.dew u.remote_objects i.applied_objects in
      let dv = diff_objects differ i.rendered_objects (record du { swapped = true }) in
      (
        record s.ret {
          warnings = s.ret.warnings ++ get_warnings_list dv.dew;
          errors = s.ret.errors ++ get_errors_list dv.dew;
        },
        dv.changed_objects,
      )

  abbrev pub all_ready : ValidateResult
  all_ready = record { ready = true; warnings = []; errors = []; results = [] }

  -- `ValidateCommand.Run`: the result and its drift. The remote objects are gathered with the
  -- discriminator of the command.
  unfoldable pub run_validate :
      String
      → Option (List Obj)
      → Option (List (ResultObject Obj))
      → Result (ValidateResult × List ChangedObject)
  unfolding inputs update_remote_objects validate_all new_diff_util diff_objects
  run_validate discriminator c r = inputs c r >>= λ i.
      or_error (
        update_remote_objects remote (some discriminator) i.refs true
          (new_remote_objects_util init))
      >>= λ u. validate_all u i.rendered_objects (record { ret = all_ready; dew = u.dew }) >>= λ s.
          ok (conclude i u s)
