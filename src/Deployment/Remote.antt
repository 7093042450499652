-- ===== src/Deployment/Remote.antt =====
-- pkg/deployment/utils/remote_objects_utils.go: the objects that the cluster has.
pub mod Stable
pub mod Keyed
pub mod Known
use text.Mathlib.Text.{◌==◌ as str_eq}
use kluctl.Prelude.{
  String, ℕ, ◌+◌, Bool, true, false, ◌&&◌, ◌||◌, not, Option, none, some, List, [], ◌∷◌, ◌++◌,
  contains, select, add, map, is_empty, nat_beq, if◌then◌else◌, Result, ok, err, panicked, Map,
  lookup, insert, delete, has, values, string_eq,
}
use kluctl.Types.ObjectRef.{ObjectRef, GroupVersionKind, GroupKind, ref_eq, gk_eq, group_kind}
use kluctl.Utils.Parse.{find_str_in_slice}
use kluctl.Utils.Inclusion.{Inclusion, InclusionEntry, check_included}
use kluctl.K8s.{ApiError, Reason, not_found, no_match, forbidden, unauthorized, is_not_found}
use kluctl.K8s.Resources.{ApiResource, Discovery, get_filtered_preferred_gvks}
use kluctl.Deployment.Errors.{DeploymentErrorsAndWarnings, add_error, add_warning, add_api_warnings}

-- What `ListObjects` and `GetSingleObject` return.
pub record Listing (Obj : Type 0) : Type 0 where
  pub objects : List Obj
  pub warnings : List String
  pub error : Option ApiError

pub data Single (Obj : Type 0) : Type 0 where
  read_object : Obj → Single Obj
  read_error : ApiError → Single Obj

-- The cluster, and what the file uses of an object. `schedule` and `schedule_kinds` are the orders in
-- which the goroutines take their turns.
pub record Remote (Obj : Type 0) : Type 0 where
  pub ref_of : Obj → ObjectRef
  pub name_of : Obj → String
  -- the values of the labels that match ^kluctl.io/tag-\d+$
  pub tags_of : Obj → List String
  pub annotation : Obj → String → Option String
  pub discovery : Discovery
  pub list_objects : GroupVersionKind → Map String String → Listing Obj
  pub get_single_object : ObjectRef → List String × Single Obj
  pub sprintf : String → String
  pub schedule : List ObjectRef → List ObjectRef
  pub schedule_kinds : List GroupVersionKind → List GroupVersionKind

pub record RemoteObjectUtils (Obj : Type 0) : Type 0 where
  pub dew : DeploymentErrorsAndWarnings
  pub remote_objects : Map ObjectRef Obj
  pub remote_namespaces : Map String Obj

-- `NewRemoteObjectsUtil`
unfoldable pub new_remote_objects_util :
    {Obj : Type 0} → DeploymentErrorsAndWarnings → RemoteObjectUtils Obj
new_remote_objects_util dew = record { dew = dew; remote_objects = []; remote_namespaces = [] }

-- The state and the two counters of the goroutines.
pub record Gathering (Obj : Type 0) : Type 0 where
  pub u : RemoteObjectUtils Obj
  pub err_count : ℕ
  pub permission_err_count : ℕ

abbrev pub is_permission : ApiError → Bool
is_permission e = elim e.reason [ forbidden ↦ true | unauthorized ↦ true | _ ↦ false ]

abbrev pub is_absent : ApiError → Bool
is_absent e = elim e.reason [ not_found ↦ true | no_match ↦ true | _ ↦ false ]

abbrev pub kind_ref : GroupVersionKind → ObjectRef
kind_ref gvk = record {
  group = gvk.group;
  version = gvk.version;
  kind = gvk.kind;
  name = "";
  namespace = "";
}

abbrev pub no_ref : ObjectRef
no_ref = record { group = ""; version = ""; kind = ""; name = ""; namespace = "" }

abbrev is_used : Option (List GroupKind) → GroupKind → Bool
is_used none gk = true
is_used (some gks) gk = contains gks gk

abbrev is_some : Option ℕ → Bool
is_some none = false
is_some (some i) = true

-- The filter of the kinds: those in use that can be listed.
unfoldable pub can_list : Option (List GroupKind) → ApiResource → Bool
unfolding find_str_in_slice
can_list used ar =
    if is_used used (record { group = ar.group; kind = ar.kind })
    then is_some (find_str_in_slice ar.verbs "list")
    else false

module _ {Obj : Type 0} (k : Remote Obj) where
  open k use {
    ref_of, name_of, tags_of, annotation, discovery, list_objects, get_single_object, sprintf,
    schedule, schedule_kinds,
  }

  -- `u.remoteObjects[o.GetK8sRef()] = o`
  unfoldable pub put_object : Obj → RemoteObjectUtils Obj → RemoteObjectUtils Obj
  put_object o u = record u { remote_objects = insert (ref_of o) o u.remote_objects }

  unfoldable pub put_objects : List Obj → RemoteObjectUtils Obj → RemoteObjectUtils Obj
  unfolding put_object
  put_objects [] u = u
  put_objects (o ∷ l) u = put_objects l (put_object o u)

  unfoldable pub put_namespaces : List Obj → RemoteObjectUtils Obj → RemoteObjectUtils Obj
  put_namespaces [] u = u
  put_namespaces (o ∷ l) u =
      put_namespaces l (record u { remote_namespaces = insert (name_of o) o u.remote_namespaces })

  abbrev pub warned : ObjectRef → List String → RemoteObjectUtils Obj → RemoteObjectUtils Obj
  warned ref warnings u = record u { dew = add_api_warnings sprintf ref warnings u.dew }

  abbrev pub with_warning : ObjectRef → String → RemoteObjectUtils Obj → RemoteObjectUtils Obj
  with_warning ref message u = record u { dew = add_warning ref message u.dew }

  abbrev pub with_error : ObjectRef → String → RemoteObjectUtils Obj → RemoteObjectUtils Obj
  with_error ref message u = record u { dew = add_error ref message u.dew }

  abbrev pub listed_objects :
      GroupVersionKind → List Obj → Gathering Obj → Option ApiError → Gathering Obj
  listed_objects gvk l s none = record s { u = put_objects l s.u }
  listed_objects gvk l s (some e) =
      if is_not_found e
      then s
      else if is_permission e
      then record s {
        err_count = s.err_count + 1;
        permission_err_count = s.permission_err_count + 1;
      }
      else record s { err_count = s.err_count + 1; u = with_warning (kind_ref gvk) e.message s.u }

  -- What one goroutine of `getAllByDiscriminator` does with the answer.
  unfoldable pub listed : GroupVersionKind → Listing Obj → Gathering Obj → Gathering Obj
  unfolding put_objects
  listed gvk l s =
      listed_objects gvk l.objects (record s { u = warned (kind_ref gvk) l.warnings s.u }) l.error

  unfoldable pub list_all :
      Map String String → List GroupVersionKind → Gathering Obj → Gathering Obj
  unfolding listed
  list_all labels [] s = s
  list_all labels (gvk ∷ gvks) s = list_all labels gvks (listed gvk (list_objects gvk labels) s)

  -- The warning at the end.
  unfoldable pub finish_gathering : String → Gathering Obj → RemoteObjectUtils Obj
  finish_gathering text s =
      if not (nat_beq s.err_count 0) && not (nat_beq s.permission_err_count 0)
      then with_warning no_ref text s.u
      else s.u

  abbrev pub gathering : RemoteObjectUtils Obj → Gathering Obj
  gathering u = record { u = u; err_count = 0; permission_err_count = 0 }

  abbrev pub discriminator_warning : String
  discriminator_warning =
      "at least one permission error was encountered while gathering objects by discriminator labels. This might result in orphan object detection to not work properly"

  unfoldable pub list_by_discriminator :
      String
      → Result (List GroupVersionKind)
      → RemoteObjectUtils Obj
      → Option String × RemoteObjectUtils Obj
  unfolding list_all finish_gathering
  list_by_discriminator discriminator (ok gvks) u = (
    none,
    finish_gathering discriminator_warning (
        list_all (("kluctl.io/discriminator", discriminator) ∷ []) (schedule_kinds gvks)
          (gathering u)),
  )
  list_by_discriminator discriminator (err e) u = (some e, u)
  list_by_discriminator discriminator panicked u = (some "panic", u)

  -- `getAllByDiscriminator`; an absent discriminator is nil.
  unfoldable pub get_all_by_discriminator :
      Option String
      → Option (List GroupKind)
      → RemoteObjectUtils Obj
      → Option String × RemoteObjectUtils Obj
  unfolding can_list list_by_discriminator
  get_all_by_discriminator none used u = (none, u)
  get_all_by_discriminator (some discriminator) used u =
      if str_eq discriminator ""
      then (none, u)
      else list_by_discriminator discriminator
          (get_filtered_preferred_gvks discovery (can_list used)) u

  -- `notFoundRefsMap`
  unfoldable pub not_found_refs : RemoteObjectUtils Obj → List ObjectRef → List ObjectRef
  not_found_refs u [] = []
  not_found_refs u (ref ∷ refs) =
      let rest = not_found_refs u refs in if has ref u.remote_objects then rest else add ref rest

  abbrev pub missed : ObjectRef → Gathering Obj → ApiError → Gathering Obj
  missed ref s e =
      if is_absent e
      then s
      else if is_permission e
      then record s { permission_err_count = s.permission_err_count + 1 }
      else record s { u = with_error ref e.message s.u; err_count = s.err_count + 1 }

  abbrev pub took : ObjectRef → Gathering Obj → Single Obj → Gathering Obj
  took ref s (read_object o) = record s { u = put_object o s.u }
  took ref s (read_error e) = missed ref s e

  -- One goroutine of `getMissingObjects`.
  unfoldable pub get_missing : ObjectRef → Gathering Obj → Gathering Obj
  unfolding put_object
  get_missing ref s =
      took ref (record s { u = warned ref (get_single_object ref).0 s.u }) (get_single_object ref).1

  unfoldable pub get_all_missing : List ObjectRef → Gathering Obj → Gathering Obj
  unfolding get_missing
  get_all_missing [] s = s
  get_all_missing (ref ∷ refs) s = get_all_missing refs (get_missing ref s)

  abbrev pub missing_warning : String
  missing_warning =
      "at least one permission error was encountered while gathering known objects. This might result in orphan object detection and diffs to not work properly"

  -- `getMissingObjects`, which returns no error.
  unfoldable pub get_missing_objects :
      List ObjectRef → RemoteObjectUtils Obj → RemoteObjectUtils Obj
  unfolding not_found_refs get_all_missing finish_gathering
  get_missing_objects refs u =
      finish_gathering missing_warning
        (get_all_missing (schedule (not_found_refs u refs)) (gathering u))

  abbrev pub namespace_kind : GroupVersionKind
  namespace_kind = record { group = ""; version = "v1"; kind = "Namespace" }

  abbrev pub took_namespaces :
      List Obj → RemoteObjectUtils Obj → Option ApiError → Option String × RemoteObjectUtils Obj
  took_namespaces l u none = (none, put_namespaces l u)
  took_namespaces l u (some e) = (some e.message, u)

  abbrev pub used_gks : Bool → List ObjectRef → Option (List GroupKind)
  used_gks only_used_gks refs = if only_used_gks then some (map group_kind refs) else none

  abbrev pub and_missing :
      List ObjectRef → Option String × RemoteObjectUtils Obj → Option String × RemoteObjectUtils Obj
  and_missing refs (some e, u) = (some e, u)
  and_missing refs (none, u) =
      let l = list_objects namespace_kind [] in
      took_namespaces l.objects (get_missing_objects refs u) l.error

  -- `UpdateRemoteObjects` with a cluster; without one it does nothing.
  unfoldable pub update_remote_objects :
      Option String
      → List ObjectRef
      → Bool
      → RemoteObjectUtils Obj
      → Option String × RemoteObjectUtils Obj
  unfolding get_all_by_discriminator get_missing_objects put_namespaces
  update_remote_objects discriminator refs only_used_gks u =
      and_missing refs (get_all_by_discriminator discriminator (used_gks only_used_gks refs) u)

  unfoldable pub get_remote_object : ObjectRef → RemoteObjectUtils Obj → Option Obj
  get_remote_object ref u = lookup ref u.remote_objects

  unfoldable pub get_remote_namespace : String → RemoteObjectUtils Obj → Option Obj
  get_remote_namespace n u = lookup n u.remote_namespaces

  unfoldable pub forget_remote_object : ObjectRef → RemoteObjectUtils Obj → RemoteObjectUtils Obj
  forget_remote_object ref u = record u { remote_objects = delete ref u.remote_objects }

  abbrev item_dir : Option String → List InclusionEntry
  item_dir none = []
  item_dir (some d) = (record { type = "deploymentItemDir"; value = d }) ∷ []

  unfoldable pub get_inclusion_entries : Obj → List InclusionEntry
  get_inclusion_entries o =
      map (λ v. record { type = "tag"; value = v }) (tags_of o)
      ++ item_dir (annotation o "kluctl.io/deployment-item-dir")

  unfoldable pub get_filtered_remote_objects : Option Inclusion → RemoteObjectUtils Obj → List Obj
  unfolding get_inclusion_entries
  get_filtered_remote_objects inclusion u =
      select (λ o. check_included inclusion (get_inclusion_entries o) false)
        (values u.remote_objects)
