-- ===== src/Commands.antt =====
-- pkg/deployment/commands: the commands that delete objects.
pub mod Deleted
pub mod Refused
pub mod Collect
pub mod Validate
use text.Mathlib.Text.{◌==◌ as str_eq}
use kluctl.Prelude.{
  String, Bool, true, false, ◌&&◌, not, Option, none, some, List, [], Result, ok, err, panicked,
  ◌>>=◌, if◌then◌else◌,
}
use kluctl.Types.ObjectRef.{ObjectRef, GroupVersionKind}
use kluctl.Utils.Inclusion.{Inclusion, has_type}
use kluctl.K8s.{K8sCluster}
use kluctl.K8s.Resources.{Discovery}
use kluctl.Deployment.Errors.{DeploymentErrorsAndWarnings, init}
use kluctl.Deployment.Apply.{ObjectApi}
use kluctl.Deployment.Delete.{find_objects_for_delete, delete_objects}
use kluctl.Deployment.Remote.{
  Remote, RemoteObjectUtils, new_remote_objects_util, update_remote_objects,
  get_filtered_remote_objects,
}

-- The cluster and the code of other packages. The reads of a command see the world at its start.
pub record Surroundings (Obj World : Type 0) : Type 0 where
  pub objects : ObjectApi Obj
  pub k : K8sCluster Obj World
  pub remote : World → Remote Obj
  pub is_namespaced : GroupVersionKind → Option Bool
  pub discovery : Discovery
  pub sprintf : String → String
  pub schedule : List ObjectRef → List ObjectRef

-- `TargetContext`, as far as the commands read it.
pub record TargetContext : Type 0 where
  pub discriminator : String
  pub inclusion : Option Inclusion
  pub local_object_refs : List ObjectRef

-- What a command has done: the references it deleted, and the state behind its result.
pub record Outcome (Obj : Type 0) : Type 0 where
  pub deleted : List ObjectRef
  pub ru : RemoteObjectUtils Obj

-- `if err != nil { return nil, err }`
abbrev pub or_error : {A : Type 0} → Option String × A → Result A
or_error (none, a) = ok a
or_error (some e, a) = err e

-- `confirmCb`: nil, or a function that may refuse.
abbrev pub confirmed :
    {Obj : Type 0}
    → Option (List ObjectRef → Option String)
    → List ObjectRef
    → RemoteObjectUtils Obj
    → Result (List ObjectRef × RemoteObjectUtils Obj)
confirmed none refs ru = ok (refs, ru)
confirmed (some confirm) refs ru = or_error (confirm refs, (refs, ru))

-- The discriminator of the command, and that of the target if the command has none.
abbrev pub discriminator_of : String → Option TargetContext → String
discriminator_of d none = d
discriminator_of d (some t) = if str_eq d "" then t.discriminator else d

abbrev pub inclusion_of : Option Inclusion → Option TargetContext → Option Inclusion
inclusion_of (some i) t = some i
inclusion_of none none = none
inclusion_of none (some t) = t.inclusion

module _ {Obj World : Type 0} (env : Surroundings Obj World) where
  open env use {objects, k, remote, is_namespaced, discovery, sprintf, schedule}

  -- `FindOrphanObjects` of prune.go
  unfoldable pub find_orphan_objects :
      TargetContext → World → RemoteObjectUtils Obj → Result (List ObjectRef)
  unfolding find_objects_for_delete get_filtered_remote_objects has_type
  find_orphan_objects t w ru =
      find_objects_for_delete objects is_namespaced discovery
        (get_filtered_remote_objects (remote w) t.inclusion ru) (has_type t.inclusion "tags")
        t.local_object_refs

  -- The remote objects of a discriminator.
  abbrev pub gather : String → World → Result (RemoteObjectUtils Obj)
  gather d w =
      or_error (update_remote_objects (remote w) (some d) [] false (new_remote_objects_util init))

  -- The deletion at the end, of what the steps before it found.
  abbrev pub finish :
      Bool → Result (List ObjectRef × RemoteObjectUtils Obj) → World → Result (Outcome Obj) × World
  finish do_wait (ok (refs, ru)) w =
      let d = delete_objects k sprintf schedule refs ru.dew do_wait w in
      (ok (record { deleted = d.deleted; ru = record ru { dew = d.dew } }), d.world)
  finish do_wait (err e) w = (err e, w)
  finish do_wait panicked w = (panicked, w)

  -- `PruneCommand.Run` up to the deletion. Without a target, its context is nil and is used.
  abbrev pub prune_target :
      String
      → Option (List ObjectRef → Option String)
      → Option TargetContext
      → World
      → Result (List ObjectRef × RemoteObjectUtils Obj)
  prune_target d confirm none w = panicked
  prune_target d confirm (some t) w =
      gather d w >>= λ ru. find_orphan_objects t w ru >>= λ refs. confirmed confirm refs ru

  unfoldable pub plan_prune :
      String
      → Option (List ObjectRef → Option String)
      → Option TargetContext
      → World
      → Result (List ObjectRef × RemoteObjectUtils Obj)
  unfolding find_orphan_objects update_remote_objects
  plan_prune discriminator confirm target w =
      if str_eq (discriminator_of discriminator target) ""
      then err "pruning without a discriminator is not supported"
      else prune_target (discriminator_of discriminator target) confirm target w

  -- `PruneCommand.Run`
  unfoldable pub run_prune :
      String
      → Option (List ObjectRef → Option String)
      → Option TargetContext
      → Bool
      → World
      → Result (Outcome Obj) × World
  unfolding plan_prune delete_objects
  run_prune discriminator confirm target do_wait w =
      finish do_wait (plan_prune discriminator confirm target w) w

  abbrev pub delete_target :
      String
      → Option Inclusion
      → Option (List ObjectRef → Option String)
      → World
      → Result (List ObjectRef × RemoteObjectUtils Obj)
  delete_target d inclusion confirm w = gather d w >>= λ ru.
      find_objects_for_delete objects is_namespaced discovery
        (get_filtered_remote_objects (remote w) inclusion ru) (has_type inclusion "tags") []
      >>= λ refs. confirmed confirm refs ru

  -- `DeleteCommand.Run` up to the deletion.
  unfoldable pub plan_delete :
      String
      → Option Inclusion
      → Option (List ObjectRef → Option String)
      → Option TargetContext
      → World
      → Result (List ObjectRef × RemoteObjectUtils Obj)
  plan_delete discriminator inclusion confirm target w =
      if str_eq (discriminator_of discriminator target) ""
      then err "deletion without a discriminator is not supported"
      else delete_target (discriminator_of discriminator target) (inclusion_of inclusion target)
          confirm w

  -- `DeleteCommand.Run`
  unfoldable pub run_delete :
      String
      → Option Inclusion
      → Option (List ObjectRef → Option String)
      → Option TargetContext
      → Bool
      → World
      → Result (Outcome Obj) × World
  unfolding plan_delete
  run_delete discriminator inclusion confirm target do_wait w =
      finish do_wait (plan_delete discriminator inclusion confirm target w) w
