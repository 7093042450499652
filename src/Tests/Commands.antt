-- ===== src/Tests/Commands.antt =====
-- Runs of the theorems on pkg/deployment/commands and on the remote objects.
use kluctl.Prelude.{
  String, ◌≡◌, ◌⊎◌, refl, true, false, none, some, [], ◌∷◌, In, here, there, contains, lookup,
  insert, delete, has, values, select, add, any, ok, ap, sym, string_eq,
}
use kluctl.Types.ObjectRef.{ObjectRef, ref_eq, group_kind}
use kluctl.K8s.{delete_single_object}
use kluctl.K8s.Resources.{get_filtered_preferred_gvks, do_get_filtered_gvks}
use kluctl.Utils.Inclusion.{has_type, check_included}
use kluctl.Deployment.Errors.{init, add_api_warnings}
use kluctl.Deployment.Apply.{is_skip_delete}
use kluctl.Deployment.Delete.{
  object_ref_for_exclusion, filter_func, find_objects_for_delete, delete_objects,
}
use kluctl.Deployment.Remote.{
  Remote, RemoteObjectUtils, read_object, new_remote_objects_util, update_remote_objects,
  get_filtered_remote_objects,
}
use kluctl.Deployment.Remote.Keyed.{Keyed, update_remote_objects-Keyed}
use kluctl.Deployment.Remote.Known.{Known, Refused, Honest, update_remote_objects-Known}
use kluctl.Commands.{Surroundings, TargetContext, Outcome, run_prune, run_delete}
use kluctl.Commands.Deleted.{Deletable, run_prune-Deletable, run_delete-Deletable}
use kluctl.Commands.Refused.{run_refused}
use kluctl.Commands.Collect.{ResultObject, collect_objects}
use kluctl.Commands.Collect.Reported.{collect_objects-deleted, collect_objects-orphan}
use kluctl.Tests.Server.{Item, config_map, items, Stored, cluster, discovery}

abbrev managed : String → Item
managed n = record {
  ref = config_map n;
  annotations = ("managed", "") ∷ [];
  managers = "kluctl" ∷ [];
}

abbrev item_at : ObjectRef → Item
item_at ref = record { ref = ref; annotations = []; managers = [] }

-- A cluster that lists what is stored, and finds every object that it is asked for.
abbrev remote : Stored → Remote Item
remote w = record {
  ref_of = λ x. x.ref;
  name_of = λ x. x.ref.name;
  tags_of = λ x. [];
  annotation = λ x n. lookup n x.annotations;
  discovery = discovery;
  list_objects = λ gvk labels. record { objects = values w; warnings = []; error = none };
  get_single_object = λ ref. ([], read_object (item_at ref));
  sprintf = λ s. s;
  schedule = λ l. l;
  schedule_kinds = λ l. l;
}

abbrev unread : RemoteObjectUtils Item
unread = record {
  dew = record { errors = []; warnings = [] };
  remote_objects = [];
  remote_namespaces = [];
}

unread-Keyed : Keyed (remote []) unread
unfolding Keyed
unread-Keyed = tt

update_remote_objects-Keyed_example :
    Keyed
      (remote [])
      (update_remote_objects (remote []) (some "d") (config_map "a" ∷ []) true unread).1
update_remote_objects-Keyed_example =
    update_remote_objects-Keyed (remote []) (some "d") (config_map "a" ∷ []) true unread
      unread-Keyed

remote-Honest : Honest (remote [])
remote-Honest ref o h = let e : item_at ref ≡ o = cc in ap (λ x. x.ref) (sym e)

update_remote_objects-Known_example :
    Refused (remote []) (config_map "a")
    ⊎ Known
        (config_map "a")
        (update_remote_objects (remote []) (some "d") (config_map "a" ∷ []) true unread).1
unfolding update_remote_objects contains get_filtered_preferred_gvks
update_remote_objects-Known_example =
    update_remote_objects-Known (remote []) (λ l ref h. h) remote-Honest (some "d")
      (config_map "a" ∷ []) true unread (config_map "a") refl refl

abbrev stored : Stored
stored = (config_map "a", managed "a") ∷ (config_map "b", managed "b") ∷ []

abbrev surroundings : Surroundings Item Stored
surroundings = record {
  objects = items;
  k = cluster;
  remote = remote;
  is_namespaced = λ gvk. some true;
  discovery = discovery;
  sprintf = λ s. s;
  schedule = λ l. l;
}

abbrev target : TargetContext
target = record { discriminator = "d"; inclusion = none; local_object_refs = config_map "a" ∷ [] }

abbrev gathered : RemoteObjectUtils Item
gathered = record {
  dew = record { errors = []; warnings = [] };
  remote_objects = stored;
  remote_namespaces = ("a", managed "a") ∷ ("b", managed "b") ∷ [];
}

abbrev pruned : Outcome Item
pruned = record { deleted = config_map "b" ∷ []; ru = gathered }

b_is_pruned :
    run_prune surroundings "" none (some target) false stored
    ≡ (ok pruned, (config_map "a", managed "a") ∷ [])
unfolding run_prune get_filtered_preferred_gvks select lookup do_get_filtered_gvks contains insert
    delete new_remote_objects_util check_included filter_func any group_kind is_skip_delete has add
    object_ref_for_exclusion delete_single_object add_api_warnings init
b_is_pruned = refl

run_prune-Deletable_example :
    Deletable surroundings none (config_map "a" ∷ []) stored gathered (config_map "b")
run_prune-Deletable_example =
    run_prune-Deletable surroundings (λ l r i. i) "" none target false stored
      ((config_map "a", managed "a") ∷ []) pruned (config_map "b") b_is_pruned here

abbrev all_deleted : Outcome Item
all_deleted = record { deleted = config_map "a" ∷ config_map "b" ∷ []; ru = gathered }

a_is_deleted : run_delete surroundings "d" none none none false stored ≡ (ok all_deleted, [])
unfolding run_delete has_type update_remote_objects find_objects_for_delete delete_objects
    get_filtered_remote_objects get_filtered_preferred_gvks select lookup do_get_filtered_gvks
    contains insert delete new_remote_objects_util check_included filter_func any group_kind
    is_skip_delete has add object_ref_for_exclusion delete_single_object add_api_warnings init
a_is_deleted = refl

run_delete-Deletable_example : Deletable surroundings none [] stored gathered (config_map "a")
run_delete-Deletable_example =
    run_delete-Deletable surroundings (λ l r i. i) "d" none none none false stored [] all_deleted
      (config_map "a") a_is_deleted here

run_refused_example :
    ((run_prune surroundings "" (some (λ refs. some "no")) (some target) true stored).1 ≡ stored)
    × ((run_delete surroundings "" none (some (λ refs. some "no")) (some target) true stored).1
        ≡ stored)
run_refused_example =
    run_refused surroundings (λ refs. some "no") (λ refs. ("no", refl)) "" none target true stored

collect_objects-deleted_example :
    (o : ResultObject Item) × In o (
      collect_objects items {World = Stored}
        (λ a b. false)
        []
        (managed "a" ∷ [])
        []
        []
        []
        (config_map "a" ∷ []))
    × (o.ref ≡ config_map "a")
    × (o.deleted ≡ true)
collect_objects-deleted_example =
    collect_objects-deleted items {World = Stored} (λ a b. false) [] (managed "a" ∷ []) [] [] []
      (config_map "a" ∷ []) (config_map "a") here

collect_objects-orphan_example :
    (o : ResultObject Item) × In o (
      collect_objects items {World = Stored}
        (λ a b. false)
        []
        (managed "a" ∷ [])
        []
        []
        (config_map "a" ∷ config_map "b" ∷ [])
        (config_map "a" ∷ []))
    × (o.ref ≡ config_map "b")
    × (o.orphan ≡ true)
unfolding contains
collect_objects-orphan_example =
    collect_objects-orphan items {World = Stored} (λ a b. false) [] (managed "a" ∷ []) [] []
      (config_map "a" ∷ config_map "b" ∷ []) (config_map "a" ∷ []) (config_map "b") (there here)
      refl
