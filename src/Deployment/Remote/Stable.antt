-- ===== src/Deployment/Remote/Stable.antt =====
-- What the methods of pkg/deployment/utils/remote_objects_utils.go keep of their state.
use text.Mathlib.Text.{◌==◌ as str_eq}
use kluctl.Prelude.{
  String, Bool, true, false, not, ◌&&◌, Option, none, some, List, [], ◌∷◌, Result, ok, err,
  panicked, Map, insert, nat_beq, if◌then◌else◌, string_eq,
}
use kluctl.Types.ObjectRef.{ObjectRef, GroupVersionKind, GroupKind}
use kluctl.K8s.{ApiError, is_not_found}
use kluctl.K8s.Resources.{get_filtered_preferred_gvks}
use kluctl.Deployment.Remote.{
  Remote, RemoteObjectUtils, Gathering, Single, read_object, read_error, is_permission, is_absent,
  kind_ref, no_ref, can_list, put_object, put_objects, put_namespaces, warned, with_warning,
  with_error, listed_objects, listed, list_all, finish_gathering, gathering, discriminator_warning,
  list_by_discriminator, get_all_by_discriminator, took, get_missing, get_all_missing,
  not_found_refs, missing_warning, get_missing_objects, took_namespaces, and_missing, used_gks,
  namespace_kind, update_remote_objects,
}

-- An assertion that every single change of the state keeps.
pub record Stable {Obj : Type 0} (k : Remote Obj) (P : RemoteObjectUtils Obj → Type 0)
    : Type 0 where
  pub put : (o : Obj) (u : RemoteObjectUtils Obj) → P u → P (put_object k o u)
  pub warn_api :
      (ref : ObjectRef) (ws : List String) (u : RemoteObjectUtils Obj) → P u → P (warned k ref ws u)
  pub warn :
      (ref : ObjectRef) (message : String) (u : RemoteObjectUtils Obj)
      → P u
      → P (with_warning k ref message u)
  pub fail :
      (ref : ObjectRef) (message : String) (u : RemoteObjectUtils Obj)
      → P u
      → P (with_error k ref message u)
  pub name :
      (m : Map String Obj) (u : RemoteObjectUtils Obj)
      → P u
      → P (record u { remote_namespaces = m })

module _ {Obj : Type 0} {k : Remote Obj} {P : RemoteObjectUtils Obj → Type 0}
    (stable : Stable k P) where
  open stable use {put, warn_api, warn, fail, name}

  if-kept : (b : Bool) (s t : Gathering Obj) → P s.u → P t.u → P (if b then s else t).u
  if-kept true s t h i = h
  if-kept false s t h i = i

  put_objects-kept : (l : List Obj) (u : RemoteObjectUtils Obj) → P u → P (put_objects k l u)
  unfolding put_objects
  put_objects-kept [] u h = h
  put_objects-kept (o ∷ l) u h = put_objects-kept l (put_object k o u) (put o u h)

  listed_objects-kept :
      (gvk : GroupVersionKind) (l : List Obj) (s : Gathering Obj) (e : Option ApiError)
      → P s.u
      → P (listed_objects k gvk l s e).u
  listed_objects-kept gvk l s none h = put_objects-kept l s.u h
  listed_objects-kept gvk l s (some e) h =
      if-kept (is_not_found e) _ _ h
        (if-kept (is_permission e) _ _ h (warn (kind_ref gvk) e.message s.u h))

  list_all-kept :
      (labels : Map String String) (gvks : List GroupVersionKind) (s : Gathering Obj)
      → P s.u
      → P (list_all k labels gvks s).u
  unfolding list_all listed
  list_all-kept labels [] s h = h
  list_all-kept labels (gvk ∷ gvks) s h =
      let l = k.list_objects gvk labels in
      list_all-kept labels gvks (listed k gvk l s)
        (listed_objects-kept gvk l.objects _ l.error (warn_api (kind_ref gvk) l.warnings s.u h))

  pub finish_gathering-kept :
      (text : String) (s : Gathering Obj) → P s.u → P (finish_gathering k text s)
  unfolding finish_gathering
  finish_gathering-kept text s h =
      if_kept (not (nat_beq s.err_count 0) && not (nat_beq s.permission_err_count 0)) _ s.u
        (warn no_ref text s.u h) h
    where
      if_kept : (b : Bool) (u v : RemoteObjectUtils Obj) → P u → P v → P (if b then u else v)
      if_kept true u v h i = h
      if_kept false u v h i = i

  list_by_discriminator-kept :
      (discriminator : String) (r : Result (List GroupVersionKind)) (u : RemoteObjectUtils Obj)
      → P u
      → P (list_by_discriminator k discriminator r u).1
  unfolding list_by_discriminator
  list_by_discriminator-kept discriminator (ok gvks) u h =
      finish_gathering-kept (discriminator_warning k)
        (list_all k (("kluctl.io/discriminator", discriminator) ∷ []) (k.schedule_kinds gvks)
          (gathering k u))
        (list_all-kept (("kluctl.io/discriminator", discriminator) ∷ []) (k.schedule_kinds gvks)
          (gathering k u) h)
  list_by_discriminator-kept discriminator (err e) u h = h
  list_by_discriminator-kept discriminator panicked u h = h

  if_kept :
      (b : Bool) (r t : Option String × RemoteObjectUtils Obj)
      → P r.1
      → P t.1
      → P (if b then r else t).1
  if_kept true r t h i = h
  if_kept false r t h i = i

  get_all_by_discriminator-kept :
      (discriminator : Option String) (used : Option (List GroupKind)) (u : RemoteObjectUtils Obj)
      → P u
      → P (get_all_by_discriminator k discriminator used u).1
  unfolding get_all_by_discriminator
  get_all_by_discriminator-kept none used u h = h
  get_all_by_discriminator-kept (some d) used u h =
      if_kept (str_eq d "") _ _ h
        (list_by_discriminator-kept d (get_filtered_preferred_gvks k.discovery (can_list used)) u h)

  took-kept : (ref : ObjectRef) (s : Gathering Obj) (r : Single Obj) → P s.u → P (took k ref s r).u
  took-kept ref s (read_object o) h = put o s.u h
  took-kept ref s (read_error e) h =
      if-kept (is_absent e) _ _ h (if-kept (is_permission e) _ _ h (fail ref e.message s.u h))

  get_missing-kept : (ref : ObjectRef) (s : Gathering Obj) → P s.u → P (get_missing k ref s).u
  unfolding get_missing
  get_missing-kept ref s h =
      took-kept ref _ (k.get_single_object ref).1 (warn_api ref (k.get_single_object ref).0 s.u h)

  pub get_all_missing-kept :
      (refs : List ObjectRef) (s : Gathering Obj) → P s.u → P (get_all_missing k refs s).u
  unfolding get_all_missing
  get_all_missing-kept [] s h = h
  get_all_missing-kept (ref ∷ refs) s h =
      get_all_missing-kept refs (get_missing k ref s) (get_missing-kept ref s h)

  pub get_missing_objects-kept :
      (refs : List ObjectRef) (u : RemoteObjectUtils Obj) → P u → P (get_missing_objects k refs u)
  unfolding get_missing_objects
  get_missing_objects-kept refs u h =
      finish_gathering-kept (missing_warning k)
        (get_all_missing k (k.schedule (not_found_refs k u refs)) (gathering k u))
        (get_all_missing-kept (k.schedule (not_found_refs k u refs)) (gathering k u) h)

  put_namespaces-kept : (l : List Obj) (u : RemoteObjectUtils Obj) → P u → P (put_namespaces k l u)
  unfolding put_namespaces
  put_namespaces-kept [] u h = h
  put_namespaces-kept (o ∷ l) u h =
      put_namespaces-kept l _ (name (insert (k.name_of o) o u.remote_namespaces) u h)

  pub took_namespaces-kept :
      (l : List Obj) (u : RemoteObjectUtils Obj) (e : Option ApiError)
      → P u
      → P (took_namespaces k l u e).1
  took_namespaces-kept l u none h = put_namespaces-kept l u h
  took_namespaces-kept l u (some e) h = h

  and_missing-kept :
      (refs : List ObjectRef) (r : Option String × RemoteObjectUtils Obj)
      → P r.1
      → P (and_missing k refs r).1
  and_missing-kept refs (some e, u) h = h
  and_missing-kept refs (none, u) h =
      let l = k.list_objects (namespace_kind k) [] in
      took_namespaces-kept l.objects _ l.error (get_missing_objects-kept refs u h)

  pub update_remote_objects-kept :
      (discriminator : Option String) (refs : List ObjectRef) (only_used_gks : Bool)
      (u : RemoteObjectUtils Obj)
      → P u
      → P (update_remote_objects k discriminator refs only_used_gks u).1
  unfolding update_remote_objects
  update_remote_objects-kept discriminator refs only_used_gks u h =
      and_missing-kept refs _
        (get_all_by_discriminator-kept discriminator (used_gks k only_used_gks refs) u h)
