-- ===== src/K8s.antt =====
-- pkg/k8s/k8s_cluster.go: the requests that kluctl sends to an API server. The client library and the
-- server behind it are a parameter: a function that answers a request in a world and changes the world.
pub mod Requests
pub mod Resources
use Prim.Native.String.{◌++◌}
use kluctl.Prelude.{
  String, ℕ, zero, suc, Bool, true, false, ◌||◌, ◌&&◌, not, Option, none, some, List, [], ◌∷◌,
  if◌then◌else◌,
}
use kluctl.Types.ObjectRef.{ObjectRef, to_string}

-- The classes of errors that the callers tell apart.
pub data Reason : Type 0 where
  not_found no_match conflict deadline_exceeded canceled forbidden unauthorized other : Reason

-- A Go error: its class, its text, and whether it is a `*errors.StatusError`.
pub record ApiError : Type 0 where
  pub reason : Reason
  pub message : String
  pub is_status : Bool

-- `fmt.Errorf("prefix%w", err)` keeps the class.
abbrev pub wrap : String → ApiError → ApiError
wrap prefix e = record e { message = prefix ++ e.message }

-- `fmt.Errorf` of a text alone.
abbrev pub errorf : String → ApiError
errorf text = record { reason = other; message = text; is_status = false }

abbrev pub is_not_found : ApiError → Bool
is_not_found e = elim e.reason [ not_found ↦ true | _ ↦ false ]

-- A request of the client: whether it is a dry run, and what it is about.
pub data Request (Obj : Type 0) : Type 0 where
  patch : Bool → Bool → Obj → Request Obj
  update : Bool → Obj → Request Obj
  remove : Bool → ObjectRef → Request Obj
  read : ObjectRef → Request Obj

-- What a request leaves: the object as the server returned it, the warning headers, the error, and
-- the world after it.
pub record Answer (Obj World : Type 0) : Type 0 where
  pub object : Obj
  pub warnings : List String
  pub error : Option ApiError
  pub world : World

-- `K8sCluster` with its client. `fix_object_for_patch` and the discovery cache are not modelled.
pub record K8sCluster (Obj World : Type 0) : Type 0 where
  pub dry_run : Bool
  pub call : Request Obj → World → Answer Obj World
  pub reset_mapper : World → World
  pub ref_of : Obj → ObjectRef
  pub fix_object_for_patch : Obj → Obj
  -- How often a deletion is polled for before the context is cancelled.
  pub deletion_polls : ObjectRef → ℕ

-- The results of a method, and the world after it.
pub record Outcome (Obj World : Type 0) : Type 0 where
  pub object : Option Obj
  pub warnings : List String
  pub error : Option ApiError
  pub world : World

module _ {Obj World : Type 0} where
  -- `if err != nil { return nil, apiWarnings, err }; return obj, apiWarnings, nil`
  abbrev pub outcome : Answer Obj World → Option ApiError → Outcome Obj World
  outcome r none = record {
    object = some r.object;
    warnings = r.warnings;
    error = none;
    world = r.world;
  }
  outcome r (some e) = record {
    object = none;
    warnings = r.warnings;
    error = some e;
    world = r.world;
  }

-- The error of a patch, as `doPatch` wraps it.
abbrev pub patch_error : ObjectRef → Option ApiError → Option ApiError
patch_error ref none = none
patch_error ref (some e) = some (wrap ("failed to patch " ++ to_string ref ++ ": ") e)

-- One poll for a deleted object: gone, failed, or still there.
abbrev pub polled :
    {World : Type 0}
    → Option ApiError
    → World
    → (World → Option ApiError × World)
    → Option ApiError × World
polled none w again = again w
polled (some e) w again = if is_not_found e then (none, w) else (some e, w)

module _ {Obj World : Type 0} (k : K8sCluster Obj World) where
  open k use {dry_run, call, ref_of, deletion_polls}

  -- `ApplyObject` with its `PatchOptions`
  unfoldable pub apply_object : Bool → Bool → Obj → World → Outcome Obj World
  apply_object force_dry_run force_apply o w =
      let r = call (patch (dry_run || force_dry_run) force_apply o) w in
      outcome r (patch_error (ref_of o) r.error)

  -- `UpdateObject` with its `UpdateOptions`
  unfoldable pub update_object : Bool → Obj → World → Outcome Obj World
  update_object force_dry_run o w =
      let r = call (update (dry_run || force_dry_run) o) w in outcome r r.error

  unfoldable pub get_single_object : ObjectRef → World → Outcome Obj World
  get_single_object ref w = let r = call (read ref) w in outcome r r.error

  -- `waitForDeletedObject`: the last poll before the context is cancelled ends the loop.
  unfoldable pub wait_for_deleted_object : ObjectRef → ℕ → World → Option ApiError × World
  unfolding get_single_object
  wait_for_deleted_object ref zero w = (
    some (record {
      reason = canceled;
      message = "failed waiting for deletion of " ++ to_string ref ++ ": context canceled";
      is_status = false;
    }),
    w,
  )
  wait_for_deleted_object ref (suc polls) w =
      let r = get_single_object ref w in
      polled r.error r.world (λ v. wait_for_deleted_object ref polls v)

  -- What `DeleteSingleObject` does after the request.
  unfoldable pub after_delete :
      Bool → Bool → Bool → ObjectRef → Answer Obj World → Option ApiError → Outcome Obj World
  unfolding wait_for_deleted_object
  after_delete dry no_wait ignore_not_found ref r (some e) =
      if ignore_not_found && is_not_found e
      then record { object = none; warnings = r.warnings; error = none; world = r.world }
      else record { object = none; warnings = r.warnings; error = some e; world = r.world }
  after_delete dry no_wait ignore_not_found ref r none =
      if not dry && not no_wait
      then (let (e, w) = wait_for_deleted_object ref (deletion_polls ref) r.world in
          record { object = none; warnings = r.warnings; error = e; world = w })
      else record { object = none; warnings = r.warnings; error = none; world = r.world }

  -- `DeleteSingleObject` with its `DeleteOptions`
  unfoldable pub delete_single_object : Bool → Bool → Bool → ObjectRef → World → Outcome Obj World
  unfolding after_delete
  delete_single_object force_dry_run no_wait ignore_not_found ref w =
      let dry = dry_run || force_dry_run in
      let r = call (remove dry ref) w in after_delete dry no_wait ignore_not_found ref r r.error
