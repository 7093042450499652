-- ===== src/Commands/Collect.antt =====
-- pkg/deployment/commands/utils.go: the objects of a command's result; and the results of
-- pkg/deployment/utils/apply_utils.go that they are collected from.
pub mod Edits
pub mod Reported
use kluctl.Prelude.{
  String, ℕ, Bool, true, false, ◌&&◌, ◌||◌, not, Option, none, some, List, [], ◌∷◌, ◌++◌, map, Map,
  lookup, insert, values, contains, add, select, is_empty, if◌then◌else◌,
}
use kluctl.Types.ObjectRef.{ObjectRef, ref_eq}
use kluctl.Deployment.Apply.{ObjectApi, ApplyUtil}
use kluctl.Deployment.Diff.{Change, ChangedObject, get_diff_ref}

pub record ResultObject (Obj : Type 0) : Type 0 where
  pub ref : ObjectRef
  pub changes : List Change
  pub is_new : Bool
  pub orphan : Bool
  pub deleted : Bool
  pub hook : Bool
  pub rendered : Option Obj
  pub remote : Option Obj
  pub applied : Option Obj

abbrev new_object : {Obj : Type 0} → ObjectRef → ResultObject Obj
new_object ref = record {
  ref = ref;
  changes = [];
  is_new = false;
  orphan = false;
  deleted = false;
  hook = false;
  rendered = none;
  remote = none;
  applied = none;
}

abbrev pub has_object : {Obj : Type 0} → Option Obj → Bool
has_object none = false
has_object (some x) = true

abbrev add_refs : List ObjectRef → List ObjectRef → List ObjectRef
add_refs [] s = s
add_refs (ref ∷ refs) s = add_refs refs (add ref s)

module _ {Obj World : Type 0} where
  -- `collectObjects` of `ApplyDeploymentsUtil`
  unfoldable pub collect_results :
      (ApplyUtil Obj World → Map ObjectRef Obj) → List (ApplyUtil Obj World) → List Obj
  collect_results f [] = []
  collect_results f (a ∷ results) = values (f a) ++ collect_results f results

  -- `collectObjectRefs`
  unfoldable pub collect_result_refs :
      ObjectApi Obj
      → (ApplyUtil Obj World → Map ObjectRef Obj)
      → List (ApplyUtil Obj World)
      → List ObjectRef
  collect_result_refs objects f [] = []
  collect_result_refs objects f (a ∷ results) =
      map objects.ref_of (values (f a)) ++ collect_result_refs objects f results

  abbrev add_deleted : List (ApplyUtil Obj World) → List ObjectRef → List ObjectRef
  add_deleted [] s = s
  add_deleted (a ∷ results) s = add_deleted results (add_refs a.deleted_objects s)

  -- `GetDeletedObjects`: each reference once.
  unfoldable pub get_deleted_objects : List (ApplyUtil Obj World) → List ObjectRef
  get_deleted_objects results = add_deleted results []

  unfoldable pub get_new_object_refs : ObjectApi Obj → List (ApplyUtil Obj World) → List ObjectRef
  unfolding collect_result_refs
  get_new_object_refs objects = collect_result_refs objects (λ a. a.new_objects)

  unfoldable pub get_applied_objects : List (ApplyUtil Obj World) → List Obj
  unfolding collect_results
  get_applied_objects = collect_results (λ a. a.applied_objects)

  unfoldable pub get_applied_hook_objects : List (ApplyUtil Obj World) → List Obj
  unfolding collect_results
  get_applied_hook_objects = collect_results (λ a. a.applied_hook_objects)

module _ {Obj : Type 0} (objects : ObjectApi Obj) where
  abbrev pub Collected : Type 0
  Collected = Map ObjectRef (ResultObject Obj)

  abbrev pub or_new : ObjectRef → Option (ResultObject Obj) → ResultObject Obj
  or_new ref none = new_object ref
  or_new ref (some o) = o

  -- `getOrCreate`, and an assignment to a field of what it returns.
  unfoldable pub edit : ObjectRef → (ResultObject Obj → ResultObject Obj) → Collected → Collected
  edit ref f m = insert ref (f (or_new ref (lookup ref m))) m

  -- A loop over a list.
  unfoldable pub each : {A : Type 0} → (A → Collected → Collected) → List A → Collected → Collected
  each f [] m = m
  each f (x ∷ xs) m = each f xs (f x m)

  -- The diff names of a list of objects, by reference.
  unfoldable pub diff_names : List Obj → Map ObjectRef ObjectRef → Map ObjectRef ObjectRef
  diff_names [] names = names
  diff_names (x ∷ xs) names =
      diff_names xs (insert (objects.ref_of x) (get_diff_ref objects x) names)

  abbrev pub name_or_ref : ObjectRef → Option ObjectRef → ObjectRef
  name_or_ref ref none = ref
  name_or_ref ref (some dn) = dn

  abbrev pub set_rendered : Obj → Collected → Collected
  set_rendered x = edit (get_diff_ref objects x) (λ o. record o { rendered = some x })

  abbrev pub set_remote : Obj → Collected → Collected
  set_remote x = edit (get_diff_ref objects x) (λ o. record o { remote = some x })

  abbrev pub set_applied : Obj → Collected → Collected
  set_applied x = edit (get_diff_ref objects x) (λ o. record o { applied = some x })

  abbrev pub set_hook : Obj → Collected → Collected
  set_hook x = edit (get_diff_ref objects x) (λ o. record o { hook = true })

  abbrev pub set_deleted : Map ObjectRef ObjectRef → ObjectRef → Collected → Collected
  set_deleted names ref =
      edit (name_or_ref ref (lookup ref names)) (λ o. record o { deleted = true })

  abbrev pub set_changes : Map ObjectRef ObjectRef → ChangedObject → Collected → Collected
  set_changes names x =
      edit (name_or_ref x.ref (lookup x.ref names)) (λ o. record o { changes = x.changes })

  -- An object with changes is not new.
  abbrev pub set_new : Map ObjectRef ObjectRef → ObjectRef → Collected → Collected
  set_new names ref =
      edit (name_or_ref ref (lookup ref names))
        (λ o. record o { is_new = if is_empty o.changes then true else o.is_new })

  abbrev pub set_orphan : List ObjectRef → ObjectRef → Collected → Collected
  set_orphan deleted ref m =
      if contains deleted ref then m else edit ref (λ o. record o { orphan = true }) m

  -- The objects that the code keeps: those that are under its control.
  unfoldable pub is_ours : ResultObject Obj → Bool
  is_ours o = has_object o.rendered || has_object o.applied || o.deleted || o.orphan

  module _ {World : Type 0} where
    abbrev pub all_applied : List (ApplyUtil Obj World) → Map ObjectRef ObjectRef
    all_applied results =
        diff_names (get_applied_hook_objects results) (diff_names (get_applied_objects results) [])

    -- The four loops over the results of the `ApplyDeploymentsUtil`.
    unfoldable pub collect_applied :
        Map ObjectRef ObjectRef → List (ApplyUtil Obj World) → Collected → Collected
    unfolding each get_applied_objects get_applied_hook_objects get_deleted_objects
    collect_applied remote_names results m =
        each (set_deleted remote_names) (get_deleted_objects results) (
          each set_hook (get_applied_hook_objects results)
            (each set_applied (get_applied_objects results) m))

    unfoldable pub collect_new : List (ApplyUtil Obj World) → Collected → Collected
    unfolding each get_new_object_refs
    collect_new results = each (set_new (all_applied results)) (get_new_object_refs objects results)

  -- Insertion, by the order of the kinds; `sort.Slice` leaves the order of equals open.
  unfoldable pub insert_sorted :
      (ObjectRef → ObjectRef → Bool)
      → ResultObject Obj
      → List (ResultObject Obj)
      → List (ResultObject Obj)
  insert_sorted less o [] = o ∷ []
  insert_sorted less o (p ∷ l) = if less p.ref o.ref then p ∷ insert_sorted less o l else o ∷ p ∷ l

  unfoldable pub sort :
      (ObjectRef → ObjectRef → Bool) → List (ResultObject Obj) → List (ResultObject Obj)
  unfolding insert_sorted
  sort less [] = []
  sort less (o ∷ l) = insert_sorted less o (sort less l)

  -- The map before the loops over the deleted and the orphan objects. Nil arguments are empty lists.
  unfoldable pub collect_known :
      {World : Type 0}
      → List Obj
      → List Obj
      → List (ApplyUtil Obj World)
      → List ChangedObject
      → Collected
  unfolding each diff_names collect_applied collect_new
  collect_known locals remotes results changed = collect_new results (
      each (set_changes (all_applied results)) changed (
        collect_applied (diff_names remotes []) results
          (each set_remote remotes (each set_rendered locals []))))

  -- `collectObjects`; `less` compares the printed kinds of two references.
  unfoldable pub collect_objects :
      {World : Type 0}
      → (ObjectRef → ObjectRef → Bool)
      → List Obj
      → List Obj
      → List (ApplyUtil Obj World)
      → List ChangedObject
      → List ObjectRef
      → List ObjectRef
      → List (ResultObject Obj)
  unfolding collect_known each is_ours sort
  collect_objects less locals remotes results changed orphans deleted =
      let m = collect_known locals remotes results changed in
      let m' = each (set_deleted []) deleted m in
      sort less (select is_ours (values (each (set_orphan deleted) orphans m')))
