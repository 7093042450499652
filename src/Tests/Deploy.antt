-- ===== src/Tests/Deploy.antt =====
-- Runs of the theorems on pkg/deployment/utils.
use kluctl.Prelude.{
  arith, String, ◌≡◌, ◌≢◌, refl, Bool, true, false, Option, some, List, [], ◌∷◌, In, here, select,
  pos, ok, ◌⊎◌, ◌↔◌, contains, ◌==◌, ◌||◌, has, lookup, any, add,
}
use kluctl.Utils.Parse.{parse_bool_or_false}
use kluctl.Types.ObjectRef.{ObjectRef, GroupVersionKind, group_kind, ref_eq}
use kluctl.K8s.{Request}
use kluctl.K8s.Requests.{Reach}
use kluctl.K8s.Resources.{
  get_filtered_preferred_gvks, preferred, ApiGroupResources, do_get_filtered_gvks,
}
use kluctl.Deployment.Errors.{
  DeploymentError, error_eq, DeploymentErrorsAndWarnings, add_error, had_error, get_errors_list,
  get_warnings_list,
}
use kluctl.Deployment.Errors.Laws.{get_errors_list-add_error, had_error_iff}
use kluctl.Deployment.Apply.{ApplyUtil, is_skip_delete}
use kluctl.K8s.{delete_single_object}
use kluctl.Deployment.Apply.{delete_object}
use kluctl.Deployment.Apply.Deletions.{Reported, delete_object-Reported}
use kluctl.Deployment.Apply.Object.{apply_object}
use kluctl.Deployment.Apply.Object.Sending.{Permitted}
use kluctl.Deployment.Apply.Object.Requests.{apply_object-Permitted, apply_object-dry}
use kluctl.Deployment.Apply.Wait.{
  Explained, try_wait_readiness, wait_readiness, wait_readiness-Explained,
}
use kluctl.Deployment.Apply.Hooks.{get_hooks, is_one_of}
use kluctl.Deployment.Apply.Hooks.Run.{determine_hooks}
use kluctl.Deployment.Apply.Hooks.Order.{IsSorted, has_weight, determine_hooks-IsSorted}
use kluctl.Deployment.Apply.Item.{apply_objects}
use kluctl.Deployment.Apply.Item.Abort.{apply_objects-abort}
use kluctl.Deployment.Delete.{
  delete_objects, find_objects_for_delete, object_ref_for_exclusion, is_deletable, excluded_map,
  group_kinds, filter_func, is_namespace,
}
use kluctl.Deployment.Delete.Guards.{IsOurs, exclusion}
use kluctl.Deployment.Delete.Laws.{find_objects_for_delete-IsOurs, find_objects_for_delete_complete}
use kluctl.Deployment.Delete.Accounted.{Accounted, delete_objects-Accounted}
use kluctl.Tests.Server.{
  Item, Stored, config_map, plain, items, cluster, environment, no_errors, start, discovery, texts,
}

abbrev namespaced : GroupVersionKind → Option Bool
namespaced gvk = some true

abbrev managed : String → Item
managed n = record (plain n) { annotations = ("managed", "") ∷ [] }

apply_object-Permitted_example :
    Reach cluster
      (Permitted (environment false))
      []
      (apply_object (environment false) (plain "a") false false (start [])).world
apply_object-Permitted_example =
    apply_object-Permitted (environment false) (plain "a") false false (start [])

apply_object-dry_example :
    (apply_object (environment true) (plain "a") false false (start [])).world ≡ []
unfolding lookup
apply_object-dry_example =
    apply_object-dry (environment true) (λ w. w ≡ []) refl (λ x f w h. h) (λ x w h. h) removes reads
      (λ w h. h) (plain "a") false false (start []) refl
  where
    removes :
        (ref : ObjectRef) (w : Stored)
        → w ≡ []
        → (cluster.call (Request.remove true ref) w).world ≡ []
    removes ref [] h = refl
    removes ref (x ∷ w) h = cc

    reads : (ref : ObjectRef) (w : Stored) → w ≡ [] → (cluster.call (Request.read ref) w).world ≡ []
    reads ref [] h = refl
    reads ref (x ∷ w) h = cc

-- A cluster with an object that is never ready.
abbrev unready : Stored
unready = (config_map "a", plain "a") ∷ []

wait_readiness-Explained_example :
    (try_wait_readiness (environment false) (config_map "a") 0 (start unready)
      ≡ some (wait_readiness (environment false) (config_map "a") 0 (start unready)))
    × Explained
        (environment false)
        (config_map "a")
        (wait_readiness (environment false) (config_map "a") 0 (start unready))
wait_readiness-Explained_example =
    wait_readiness-Explained (environment false) (config_map "a") 0 5 (start unready) (λ e. cc)
      (omega arith)

-- An object with a hook of a weight.
abbrev weighted : String → String → Item
weighted n w = record (plain n) {
  annotations = ("kluctl.io/hook", "pre-deploy") ∷ ("kluctl.io/hook-weight", w) ∷ [];
}

abbrev three_hooks : List Item
three_hooks = weighted "a" "2" ∷ weighted "b" "1" ∷ weighted "c" "2" ∷ []

determine_hooks-IsSorted_example :
    IsSorted
      (determine_hooks (environment false) texts three_hooks ("pre-deploy" ∷ []) (start [])).0
    × (select
          (has_weight (pos 2))
          (determine_hooks (environment false) texts three_hooks ("pre-deploy" ∷ []) (start [])).0
        ≡ select (is_one_of (environment false) texts ("pre-deploy" ∷ [])) (
            select
              (has_weight (pos 2))
              (get_hooks (environment false) texts three_hooks (start [])).0))
    × ((determine_hooks (environment false) texts three_hooks ("pre-deploy" ∷ []) (start [])).1
        ≡ (get_hooks (environment false) texts three_hooks (start [])).1)
determine_hooks-IsSorted_example =
    determine_hooks-IsSorted (environment false) texts three_hooks ("pre-deploy" ∷ []) (start [])
      (pos 2)

abbrev aborted : ApplyUtil Item Stored
aborted = record (start []) { abort_signal = true }

stopped :
    (apply_objects (environment false) texts discovery false (plain "a" ∷ []) aborted).abort_signal
    ≡ true
unfolding apply_objects
stopped = refl

apply_objects-abort_example :
    apply_objects (environment false) texts discovery false (plain "a" ∷ plain "b" ∷ []) aborted
    ≡ apply_objects (environment false) texts discovery false (plain "a" ∷ []) aborted
apply_objects-abort_example =
    apply_objects-abort (environment false) texts discovery false (plain "a" ∷ []) (plain "b" ∷ [])
      aborted stopped

found :
    find_objects_for_delete items namespaced discovery
      (managed "a" ∷ plain "b" ∷ [])
      true
      (config_map "c" ∷ [])
    ≡ ok (config_map "a" ∷ [])
unfolding find_objects_for_delete get_filtered_preferred_gvks select contains lookup
    do_get_filtered_gvks filter_func any group_kind is_skip_delete has add parse_bool_or_false
    object_ref_for_exclusion
found = refl

find_objects_for_delete-IsOurs_example :
    (x : Item) × In x (managed "a" ∷ plain "b" ∷ [])
    × (x.ref ≡ config_map "a")
    × IsOurs items namespaced true x
    × ((r : ObjectRef)
        → In r (config_map "c" ∷ [])
        → object_ref_for_exclusion namespaced r ≢ exclusion items namespaced x)
find_objects_for_delete-IsOurs_example =
    find_objects_for_delete-IsOurs items namespaced discovery (managed "a" ∷ plain "b" ∷ []) true
      (config_map "c" ∷ []) (config_map "a" ∷ []) (config_map "a") found here

abbrev all_resources : List ApiGroupResources
all_resources = elim discovery.api_group_resources [ ok l ↦ l | _ ↦ [] ]

passes :
    is_deletable items namespaced
      (group_kinds (preferred discovery (filter_func []) all_resources))
      false
      (excluded_map items namespaced [])
      (managed "a")
    ≡ true
unfolding is_deletable preferred do_get_filtered_gvks select contains lookup filter_func any
    group_kind is_skip_delete has add object_ref_for_exclusion
passes = refl

find_objects_for_delete_complete_example :
    (refs : List ObjectRef) × (find_objects_for_delete items namespaced discovery
        (managed "a" ∷ [])
        false
        []
      ≡ ok refs)
    × ((y : Item) × In y.ref refs
        × (exclusion items namespaced y ≡ exclusion items namespaced (managed "a")))
find_objects_for_delete_complete_example =
    find_objects_for_delete_complete items namespaced discovery (managed "a" ∷ []) false []
      all_resources (managed "a") refl here passes

delete_objects-Accounted_example :
    Accounted
      (config_map "a")
      (delete_objects cluster (λ s. s) (λ l. l) (config_map "a" ∷ []) no_errors true [])
    ⊎ ((n : ObjectRef) × In n (config_map "a" ∷ [])
        × (is_namespace n ≡ true)
        × (n.name ≡ "default")
        × (is_namespace (config_map "a") ≡ false))
delete_objects-Accounted_example =
    delete_objects-Accounted cluster (λ s. s) (λ l. l) (λ l r i. i) (config_map "a" ∷ []) no_errors
      true [] (config_map "a") here

abbrev problem : DeploymentError
problem = record { ref = config_map "a"; message = "failed" }

get_errors_list-add_error_example :
    (contains (get_errors_list (add_error (config_map "a") "failed" no_errors)) problem
      ≡ (problem == problem || contains (get_errors_list no_errors) problem))
    × (get_warnings_list (add_error (config_map "a") "failed" no_errors)
        ≡ get_warnings_list no_errors)
get_errors_list-add_error_example =
    get_errors_list-add_error (config_map "a") "failed" problem no_errors

abbrev one_error : DeploymentErrorsAndWarnings
one_error = record no_errors { errors = (config_map "a", problem ∷ []) ∷ [] }

had_error_iff_example : (had_error (config_map "a") one_error ≡ true) ↔ (
    (e : DeploymentError) × (contains (get_errors_list one_error) e ≡ true)
    × (e.ref ≡ config_map "a"))
had_error_iff_example = had_error_iff (config_map "a") one_error ((refl, tt), (λ n. cc), tt)

delete_object-Reported_example :
    Reported
      (config_map "a")
      false
      (delete_single_object cluster false false false (config_map "a") []).error
      (delete_object (environment false) (config_map "a") false (start []))
delete_object-Reported_example =
    delete_object-Reported (environment false) (config_map "a") false (start [])
