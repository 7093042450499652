-- ===== src/Deployment/Diff.antt =====
-- pkg/deployment/utils/diff_utils.go: which objects are compared with which, and the changes found.
pub mod Newest
use kluctl.Prelude.{
  slice_stable, String, ℕ, Bool, true, false, ◌||◌, Option, none, some, List, [], ◌∷◌, ◌++◌, Map,
  lookup, insert, values, is_empty, nat_beq, ltb, if◌then◌else◌, Result, ok, err, panicked,
}
use kluctl.Types.ObjectRef.{ObjectRef, ref_eq}
use kluctl.Deployment.Errors.{DeploymentErrorsAndWarnings, add_error}
use kluctl.Deployment.Apply.{ObjectApi}

-- `result.Change`; the values are texts in JSON.
pub record Change : Type 0 where
  pub type : String
  pub json_path : String
  pub old_value : Option String
  pub new_value : Option String
  pub unified_diff : String

pub record ChangedObject : Type 0 where
  pub ref : ObjectRef
  pub changes : List Change

-- One comparison: the local object, its diff reference, and the applied and the remote object.
pub record Comparison (Obj : Type 0) : Type 0 where
  pub lo : Obj
  pub diff_ref : ObjectRef
  pub ao : Option Obj
  pub ro : Option Obj

-- The code of pkg/diff, the creation time of an object as the time since the zero time, the order in
-- which the goroutines take their turns, and the order of printed references. `Ignore` is a rule of
-- what a comparison ignores.
pub record Differ (Obj Ignore : Type 0) : Type 0 where
  pub objects : ObjectApi Obj
  pub creation_time : Obj → ℕ
  pub normalize_object : Obj → List Ignore → Obj → Result Obj
  pub diff : Obj → Obj → Result (List Change)
  pub schedule : List (Comparison Obj) → List (Comparison Obj)
  pub less : ObjectRef → ObjectRef → Bool

-- `DiffUtil` without the options that choose the rules of what is ignored.
pub record DiffUtil (Obj : Type 0) : Type 0 where
  pub dew : DeploymentErrorsAndWarnings
  pub applied_objects : Map ObjectRef Obj
  pub swapped : Bool
  pub remote_diff_objects : Map ObjectRef Obj
  pub changed_objects : List ChangedObject

abbrev pub renamed : ObjectRef → Option String → ObjectRef
renamed ref none = ref
renamed ref (some n) = record ref { name = n }

-- `GetDiffRef`
unfoldable pub get_diff_ref : {Obj : Type 0} → ObjectApi Obj → Obj → ObjectRef
get_diff_ref objects x = renamed (objects.ref_of x) (objects.annotation x "kluctl.io/diff-name")

module _ {Obj Ignore : Type 0} (d : Differ Obj Ignore) where
  open d use {objects, creation_time, normalize_object, diff, schedule, less}

  -- The creation time of the object that is there, zero if there is none.
  abbrev pub old_creation_time : Option Obj → ℕ
  old_creation_time none = 0
  old_creation_time (some o) = creation_time o

  abbrev pub is_newer : Obj → Option Obj → Bool
  is_newer o old =
      nat_beq (old_creation_time old) 0 || ltb (old_creation_time old) (creation_time o)

  unfoldable pub put_newest : Obj → Map ObjectRef Obj → Map ObjectRef Obj
  unfolding get_diff_ref
  put_newest o m =
      let ref = get_diff_ref objects o in if is_newer o (lookup ref m) then insert ref o m else m

  -- `calcRemoteObjectsForDiff`. The source ranges over a map, in any order; here it is a list.
  unfoldable pub calc_remote_objects_for_diff : List Obj → Map ObjectRef Obj → Map ObjectRef Obj
  unfolding put_newest
  calc_remote_objects_for_diff [] m = m
  calc_remote_objects_for_diff (o ∷ l) m = calc_remote_objects_for_diff l (put_newest o m)

  -- `NewDiffUtil`
  unfoldable pub new_diff_util :
      DeploymentErrorsAndWarnings → Map ObjectRef Obj → Map ObjectRef Obj → DiffUtil Obj
  unfolding calc_remote_objects_for_diff
  new_diff_util dew remote_objects applied_objects = record {
    dew = dew;
    applied_objects = applied_objects;
    swapped = false;
    remote_diff_objects = calc_remote_objects_for_diff (values remote_objects) [];
    changed_objects = [];
  }

  abbrev failed : Obj → String → DiffUtil Obj → DiffUtil Obj
  failed lo e u = record u { dew = add_error (objects.ref_of lo) e u.dew }

  abbrev changed : Obj → ObjectRef → Result (List Change) → DiffUtil Obj → DiffUtil Obj
  changed lo ref (ok changes) u = if is_empty changes then u else record u {
    changed_objects = u.changed_objects ++ (record { ref = ref; changes = changes }) ∷ [];
  }
  changed lo ref (err e) u = failed lo e u
  changed lo ref panicked u = u

  abbrev compared : Obj → ObjectRef → Obj → Result Obj → DiffUtil Obj → DiffUtil Obj
  compared lo ref nao (ok nro) u = changed lo ref (diff nro nao) u
  compared lo ref nao (err e) u = failed lo e u
  compared lo ref nao panicked u = u

  abbrev normalized : Obj → ObjectRef → Obj → List Ignore → Result Obj → DiffUtil Obj → DiffUtil Obj
  normalized lo ref ro ignore (ok nao) u = compared lo ref nao (normalize_object ro ignore lo) u
  normalized lo ref ro ignore (err e) u = failed lo e u
  normalized lo ref ro ignore panicked u = u

  abbrev pub compare_objects :
      Obj → ObjectRef → Option Obj → Option Obj → List Ignore → DiffUtil Obj → DiffUtil Obj
  compare_objects lo ref none ro ignore u = u
  compare_objects lo ref (some ao) none ignore u = u
  compare_objects lo ref (some ao) (some ro) ignore u =
      normalized lo ref ro ignore (normalize_object ao ignore lo) u

  -- `diffObject`. A panic ends the program, which is not modelled.
  unfoldable pub diff_object : Comparison Obj → List Ignore → DiffUtil Obj → DiffUtil Obj
  diff_object c ignore u = compare_objects c.lo c.diff_ref c.ao c.ro ignore u

  -- An object that was not applied is left out. Swapped, the remote object is the new one.
  abbrev comparison : Bool → Obj → ObjectRef → Option Obj → Option Obj → List (Comparison Obj)
  comparison swapped o ref ro none = []
  comparison true o ref ro (some ao) =
      (record { lo = o; diff_ref = ref; ao = ro; ro = some ao }) ∷ []
  comparison false o ref ro (some ao) =
      (record { lo = o; diff_ref = ref; ao = some ao; ro = ro }) ∷ []

  unfoldable pub comparisons : List Obj → DiffUtil Obj → List (Comparison Obj)
  unfolding get_diff_ref
  comparisons [] u = []
  comparisons (o ∷ l) u =
      let ref = get_diff_ref objects o in
      comparison u.swapped o ref (lookup ref u.remote_diff_objects)
        (lookup (objects.ref_of o) u.applied_objects)
      ++ comparisons l u

  unfoldable pub diff_all : List (Comparison Obj) → List Ignore → DiffUtil Obj → DiffUtil Obj
  unfolding diff_object
  diff_all [] ignore u = u
  diff_all (c ∷ cs) ignore u = diff_all cs ignore (diff_object c ignore u)

  -- `sortChanges`. The changes of one reference, which `sort.Slice` may permute, stay in their order.
  unfoldable pub sort_changes : List ChangedObject → List ChangedObject
  unfolding slice_stable
  sort_changes l = slice_stable (λ c e. less c.ref e.ref) l

  -- `DiffObjects`
  unfoldable pub diff_objects : List Obj → DiffUtil Obj → DiffUtil Obj
  unfolding comparisons diff_all sort_changes
  diff_objects l u =
      let v = diff_all (schedule (comparisons l u)) [] u in
      record v { changed_objects = sort_changes v.changed_objects }
