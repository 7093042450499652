-- ===== src/Deployment/Apply/Item.antt =====
-- pkg/deployment/utils/apply_utils.go: `applyDeploymentItem`.
pub mod Abort
use kluctl.Prelude.{
  String, ℕ, Bool, true, false, ◌&&◌, ◌||◌, not, Option, none, some, List, [], ◌∷◌, ◌++◌, select,
  if◌then◌else◌, contains, add, Map, lookup, any, Result, ok, err, panicked,
}
use kluctl.Types.ObjectRef.{ObjectRef, GroupVersionKind, ref_eq, empty_ref}
use kluctl.Utils.Parse.{parse_bool_or_false}
use kluctl.K8s.{errorf}
use kluctl.K8s.Resources.{Discovery, get_filtered_gvks, build_gvk_filter}
use kluctl.Deployment.Apply.{
  ApplyUtilOptions, ObjectApi, Env, ApplyUtil, handle_error, delete_object, is_some,
}
use kluctl.Deployment.Apply.Object.{apply_object}
use kluctl.Deployment.Apply.Wait.{wait_readiness}
use kluctl.Deployment.Apply.Hooks.{Hook, Texts, get_hook}
use kluctl.Deployment.Apply.Hooks.Run.{determine_hooks, run_hooks}

-- `types.DeleteObjectItemConfig`
pub record DeleteObjectItem : Type 0 where
  pub group : Option String
  pub kind : Option String
  pub name : String
  pub namespace : String

-- What applying looks at in a `DeploymentItem` and its configuration.
pub record DeploymentItem (Obj : Type 0) : Type 0 where
  pub delete_objects : List DeleteObjectItem
  pub objects : List Obj
  pub wait_readiness : Bool
  pub barrier : Bool

abbrev pub pre_deploy : Bool → List String
pre_deploy initial =
    if initial
    then "pre-deploy-initial" ∷ "pre-deploy" ∷ []
    else "pre-deploy-upgrade" ∷ "pre-deploy" ∷ []

abbrev pub post_deploy : Bool → List String
post_deploy initial =
    if initial
    then "post-deploy-initial" ∷ "post-deploy" ∷ []
    else "post-deploy-upgrade" ∷ "post-deploy" ∷ []

abbrev with_gvks : DeleteObjectItem → List GroupVersionKind → List ObjectRef → List ObjectRef
with_gvks x [] refs = refs
with_gvks x (gvk ∷ gvks) refs = with_gvks x gvks (
    add
      (record {
        group = gvk.group;
        version = gvk.version;
        kind = gvk.kind;
        name = x.name;
        namespace = x.namespace;
      })
      refs)

module _ {Obj World : Type 0} (env : Env Obj World) (t : Texts) (d : Discovery) where
  open env use {objects, o}
  open objects use {ref_of, annotation}

  abbrev found_gvks :
      DeleteObjectItem
      → Result (List GroupVersionKind)
      → List ObjectRef × ApplyUtil Obj World
      → List ObjectRef × ApplyUtil Obj World
  found_gvks x (ok gvks) (refs, a) = (with_gvks x gvks refs, a)
  found_gvks x (err e) (refs, a) = (refs, handle_error env empty_ref (errorf e) a)
  found_gvks x panicked (refs, a) = (refs, a)

  -- The set `toDelete`: first what the configuration lists, then the annotated objects.
  unfoldable pub configured_deletions :
      List DeleteObjectItem
      → List ObjectRef × ApplyUtil Obj World
      → List ObjectRef × ApplyUtil Obj World
  configured_deletions [] s = s
  configured_deletions (x ∷ xs) s =
      configured_deletions xs
        (found_gvks x (get_filtered_gvks d (build_gvk_filter x.group none x.kind)) s)

  unfoldable pub annotated_deletions : List Obj → List ObjectRef → List ObjectRef
  unfolding parse_bool_or_false
  annotated_deletions [] refs = refs
  annotated_deletions (x ∷ xs) refs =
      annotated_deletions xs (
        if parse_bool_or_false (annotation x "kluctl.io/delete") then add (ref_of x) refs else refs)

  -- What is applied: neither a hook nor to be deleted.
  unfoldable pub objects_to_apply :
      List ObjectRef → List Obj → ApplyUtil Obj World → List Obj × ApplyUtil Obj World
  objects_to_apply to_delete [] a = ([], a)
  objects_to_apply to_delete (x ∷ xs) a =
      let (h, b) = get_hook env t x a in
      let (rest, c) = objects_to_apply to_delete xs b in
      if is_some h
      then (rest, c)
      else if contains to_delete (ref_of x)
      then (rest, c)
      else (x ∷ rest, c)

  unfoldable pub delete_all : List ObjectRef → ApplyUtil Obj World → ApplyUtil Obj World
  delete_all [] a = a
  delete_all (ref ∷ refs) a = delete_all refs (delete_object env ref false a).1

  unfoldable pub apply_and_wait : Bool → Obj → ApplyUtil Obj World → ApplyUtil Obj World
  unfolding parse_bool_or_false
  apply_and_wait wait x a =
      let b = apply_object env x false false a in
      if not o.no_wait && (wait || parse_bool_or_false (annotation x "kluctl.io/wait-readiness"))
      then (wait_readiness env (ref_of x) 0 b).1
      else b

  -- The loop over the objects: the abort signal breaks it.
  unfoldable pub apply_objects : Bool → List Obj → ApplyUtil Obj World → ApplyUtil Obj World
  unfolding apply_and_wait
  apply_objects wait [] a = a
  apply_objects wait (x ∷ xs) a =
      let rest = apply_objects wait xs (apply_and_wait wait x a) in
      if a.abort_signal then a else rest

  -- `applyDeploymentItem`, without the status lines
  unfoldable pub apply_deployment_item :
      DeploymentItem Obj → ApplyUtil Obj World → ApplyUtil Obj World
  unfolding configured_deletions annotated_deletions objects_to_apply delete_all apply_objects
  apply_deployment_item item a =
      let (configured, a1) = configured_deletions item.delete_objects ([], a) in
      let to_delete = annotated_deletions item.objects configured in
      let initial = not (any (λ x. is_some (lookup (ref_of x) env.remote_objects)) item.objects) in
      let (xs, a2) = objects_to_apply to_delete item.objects a1 in
      let (pre, a3) = determine_hooks env t item.objects (pre_deploy initial) a2 in
      let (post, a4) = determine_hooks env t item.objects (post_deploy initial) a3 in
      let a5 = delete_all to_delete a4 in
      let a6 = run_hooks env t pre a5 in
      let a7 = apply_objects item.wait_readiness xs a6 in
      if a7.abort_signal then a7 else run_hooks env t post a7
