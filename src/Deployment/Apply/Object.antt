-- ===== src/Deployment/Apply/Object.antt =====
-- pkg/deployment/utils/apply_utils.go: applying one object, with its retries.
pub mod Sending
pub mod Requests
use Prim.Native.String.{◌++◌}
use text.Mathlib.Text.{◌==◌ as str_eq}
use kluctl.Prelude.{
  String, ℕ, Bool, true, false, ◌&&◌, ◌||◌, not, Option, none, some, List, [], ◌∷◌, if◌then◌else◌,
  lookup, add, contains, string_eq,
}
use kluctl.Types.ObjectRef.{
  ObjectRef, GroupVersionKind, ref_eq, gvk_eq, to_string, group_kind, group_version_kind,
}
use kluctl.K8s.{
  K8sCluster, Outcome, ApiError, Reason, not_found, no_match, conflict, deadline_exceeded, canceled,
  other, apply_object as k8s_apply_object, update_object,
}
use kluctl.Deployment.Errors.{add_warning}
use kluctl.Deployment.Apply.{
  ApplyUtilOptions, ObjectApi, LostOwnership, Resolution, resolved, unresolved, Env, ApplyUtil,
  is_some, handle_result, handle_warning, handle_error, after_request, delete_object,
  is_skip_delete,
}

abbrev pub is_no_match : ApiError → Bool
is_no_match e = elim e.reason [ no_match ↦ true | _ ↦ false ]

abbrev pub is_conflict : ApiError → Bool
is_conflict e = elim e.reason [ conflict ↦ true | _ ↦ false ]

-- `meta.IsNoMatchError(err)` of an error that may be nil.
abbrev pub no_match_error : Option ApiError → Bool
no_match_error none = false
no_match_error (some e) = is_no_match e

abbrev add_all : List GroupVersionKind → List GroupVersionKind → List GroupVersionKind
add_all [] known = known
add_all (gvk ∷ gvks) known = add_all gvks (add gvk known)

module _ {Obj World : Type 0} (env : Env Obj World) where
  open env use {objects, k, remote_objects, remote_namespaces, o}
  open objects use {ref_of, set_name, set_namespace}

  -- What follows a request: its error goes to `failed`, its object is recorded.
  abbrev pub finish :
      Bool
      → Option Obj
      → Option ApiError
      → (ApiError → ApplyUtil Obj World → ApplyUtil Obj World)
      → ApplyUtil Obj World
      → ApplyUtil Obj World
  finish hook object (some err) failed a = failed err a
  finish hook (some object) none failed a = handle_result env object hook a
  finish hook none none failed a = a

  abbrev pub recorded :
      ObjectRef
      → Bool
      → Outcome Obj World
      → (ApiError → ApplyUtil Obj World → ApplyUtil Obj World)
      → ApplyUtil Obj World
      → ApplyUtil Obj World
  recorded ref hook r failed a = finish hook r.object r.error failed (after_request env ref r a)

  abbrev pub remote_is_skip_delete : Option Obj → Bool
  remote_is_skip_delete none = false
  remote_is_skip_delete (some remote) = is_skip_delete objects remote

  -- What `retryApplyForceReplace` does after the deletion: `deleted` is its result.
  unfoldable pub apply_again : Obj → Bool → Bool → ApplyUtil Obj World → ApplyUtil Obj World
  apply_again x hook deleted a =
      if not deleted
      then a
      else if o.dry_run
      then handle_result env x hook a
      else recorded (ref_of x) hook (k8s_apply_object k o.dry_run false x a.world)
          (handle_error env (ref_of x)) a

  unfoldable pub retry_apply_force_replace :
      Obj → Bool → Option Obj → ApiError → ApplyUtil Obj World → ApplyUtil Obj World
  unfolding apply_again
  retry_apply_force_replace x hook remote err a =
      let ref = ref_of x in
      if not o.force_replace_on_error
      then handle_error env ref err a
      else if is_skip_delete objects x || remote_is_skip_delete remote
      then handle_error env ref err a
      else (let b =
            handle_warning env ref
              ("patching " ++ to_string ref ++ " failed, retrying by deleting and re-applying") a in
          let (deleted, c) = delete_object env ref hook b in apply_again x hook deleted c)

  -- The update is sent with `x`: the copy that gets the resource version is not used.
  unfoldable pub retry_apply_with_replace :
      Obj → Bool → Option Obj → ApiError → ApplyUtil Obj World → ApplyUtil Obj World
  unfolding retry_apply_force_replace
  retry_apply_with_replace x hook none err a = handle_error env (ref_of x) err a
  retry_apply_with_replace x hook (some remote) err a =
      let ref = ref_of x in
      if not o.replace_on_error && not o.force_replace_on_error
      then handle_error env ref err a
      else (let b =
            handle_warning env ref
              ("patching " ++ to_string ref ++ " failed, retrying with replace instead of patch")
              a in
          recorded ref hook (update_object k o.dry_run x b.world)
            (retry_apply_force_replace x hook (some remote)) b)

  -- The warnings go to the results directly, past the counter.
  abbrev pub warn_lost : ObjectRef → List LostOwnership → ApplyUtil Obj World → ApplyUtil Obj World
  warn_lost ref [] a = a
  warn_lost ref (lo ∷ los) a = warn_lost ref los (record a {
    dew =
        add_warning ref
          (lo.message ++ ". Not updating field '" ++ lo.field ++ "' as we lost field ownership")
          a.dew;
  })

  unfoldable pub force_apply : ObjectRef → Bool → Obj → ApplyUtil Obj World → ApplyUtil Obj World
  force_apply ref hook x a =
      recorded ref hook (k8s_apply_object k o.dry_run true x a.world) (handle_error env ref) a

  unfoldable pub apply_resolved :
      ObjectRef → Bool → Resolution Obj → ApplyUtil Obj World → ApplyUtil Obj World
  unfolding force_apply
  apply_resolved ref hook (unresolved err) a = handle_error env ref err a
  apply_resolved ref hook (resolved x lost) a = force_apply ref hook x (warn_lost ref lost a)

  unfoldable pub retry_apply_with_conflicts :
      Obj → Bool → Option Obj → ApiError → ApplyUtil Obj World → ApplyUtil Obj World
  unfolding apply_resolved force_apply
  retry_apply_with_conflicts x hook none err a = handle_error env (ref_of x) err a
  retry_apply_with_conflicts x hook (some remote) err a =
      let ref = ref_of x in
      if o.force_apply
      then force_apply ref hook x a
      else if not err.is_status
      then handle_error env ref err a
      else apply_resolved ref hook (env.resolve_conflicts x remote err) a

  unfoldable pub handle_observed_crd : Obj → ApplyUtil Obj World → ApplyUtil Obj World
  handle_observed_crd r a = record a { all_crds = add_all (objects.crd_kinds r) a.all_crds }

  -- The namespace or the CRD that was just applied is known from now on.
  unfoldable pub observed : ObjectRef → Option Obj → ApplyUtil Obj World → ApplyUtil Obj World
  unfolding handle_observed_crd
  observed ref none a = a
  observed ref (some r) a =
      let gk = env.gk_string (group_kind ref) in
      let b =
        if str_eq gk "Namespace"
        then record a { all_namespaces = add ref.name a.all_namespaces }
        else a in
      if str_eq gk "CustomResourceDefinition.apiextensions.k8s.io"
      then handle_observed_crd r b
      else b

  -- Which retry an error of the first request leads to.
  unfoldable pub retry :
      ObjectRef → Obj → Bool → Option Obj → ApiError → ApplyUtil Obj World → ApplyUtil Obj World
  unfolding retry_apply_with_conflicts retry_apply_with_replace
  retry ref x hook remote err a =
      if is_no_match err
      then handle_error env ref err a
      else if is_conflict err
      then retry_apply_with_conflicts x hook remote err a
      else retry_apply_with_replace x hook remote err a

  unfoldable pub conclude :
      ObjectRef
      → Obj
      → Bool
      → Option Obj
      → Outcome Obj World
      → ApplyUtil Obj World
      → ApplyUtil Obj World
  unfolding observed retry
  conclude ref x hook remote r a =
      recorded ref hook r (retry ref x hook remote) (observed ref r.object a)

  -- The object that a dry run sends in place of one that was deleted, or whose namespace is missing:
  -- `none` if it sends the object itself.
  unfoldable pub dummy : ObjectRef → Obj → Bool → ApplyUtil Obj World → Option Obj
  dummy ref x replaced a =
      let renamed = set_name (ref.name ++ "-" ++ env.random_string a.world) x in
      if o.dry_run && replaced && is_some (lookup ref remote_objects)
      then some renamed
      else if o.dry_run
          && not (is_some (lookup ref.namespace remote_namespaces))
          && not (str_eq ref.namespace "")
          && contains a.all_namespaces ref.namespace
      then some (set_namespace "default" renamed)
      else none

  -- The rename of the dummy is undone in the result.
  unfoldable pub undo_dummy : ObjectRef → Obj → Obj
  undo_dummy ref r =
      let name = (ref_of r).name in
      set_namespace ref.namespace
        (objects.replace_values name ref.name (objects.replace_keys name ref.name r))

  -- The first request, of `x`; `again` says whether a missing kind may be known by now.
  unfoldable pub first_request :
      ObjectRef
      → Obj
      → Bool
      → Option Obj
      → (Obj → Obj)
      → Outcome Obj World
      → Option Obj
      → ApplyUtil Obj World
      → ApplyUtil Obj World
  unfolding conclude
  first_request ref x hook remote undo r (some y) a =
      conclude ref x hook remote (record r { object = some (undo y) }) a
  first_request ref x hook remote undo r none a =
      if no_match_error r.error && contains a.all_crds (group_version_kind (ref_of x))
      then (if o.dry_run
          then handle_warning env (ref_of x)
              ("the underyling custom resource definition for "
                ++ to_string (ref_of x)
                ++ " has not been applied yet as Kluctl is running in dry-run mode. It is not"
                ++ " guaranteed that the object will actually sucessfully apply")
              (handle_result env x hook (record a { world = r.world }))
          else conclude ref x hook remote
              (k8s_apply_object k o.dry_run false x (k.reset_mapper r.world)) a)
      else conclude ref x hook remote r a

  unfoldable pub apply_with :
      ObjectRef → Obj → Option Obj → Bool → ApplyUtil Obj World → ApplyUtil Obj World
  unfolding first_request undo_dummy
  apply_with ref x none hook a =
      let r = k8s_apply_object k o.dry_run false x a.world in
      first_request ref x hook (lookup ref remote_objects) (λ y. y) r r.object a
  apply_with ref x (some renamed) hook a =
      let r = k8s_apply_object k o.dry_run false renamed a.world in
      first_request ref renamed hook (lookup ref remote_objects) (undo_dummy ref) r r.object a

  -- `ApplyUtil.ApplyObject`
  unfoldable pub apply_object : Obj → Bool → Bool → ApplyUtil Obj World → ApplyUtil Obj World
  unfolding apply_with dummy
  apply_object x replaced hook a =
      let ref = ref_of x in
      let fixed = k.fix_object_for_patch x in
      apply_with ref fixed (dummy ref fixed replaced a) hook a
