-- ===== src/Deployment/Delete.antt =====
-- pkg/deployment/utils/delete_utils.go: which objects a deletion takes, and their deletion.
pub mod Guards
pub mod Laws
pub mod Accounted
use text.Mathlib.Text.{◌==◌ as str_eq}
use Prim.Native.String.{◌++◌ as str_append}
use kluctl.Prelude.{
  String, Bool, true, false, ◌&&◌, ◌||◌, not, Option, none, some, List, [], ◌∷◌, ◌++◌, contains,
  select, any, is_empty, add, map, if◌then◌else◌, Result, ok, string_eq, ◌>>=◌,
}
use kluctl.Types.ObjectRef.{
  ObjectRef, GroupVersionKind, GroupKind, ref_eq, gk_eq, group_kind, group_version_kind,
}
use kluctl.Utils.Parse.{parse_bool_or_false}
use kluctl.K8s.{K8sCluster, Outcome, ApiError, delete_single_object}
use kluctl.K8s.Resources.{ApiResource, Discovery, get_filtered_preferred_gvks}
use kluctl.Deployment.Errors.{DeploymentErrorsAndWarnings, add_error, add_api_warnings}
use kluctl.Deployment.Apply.{ObjectApi, is_skip_delete}

-- Names or API groups; the last step takes everything else.
abbrev pub delete_order : List (List String)
delete_order =
    ("Namespace" ∷ [])
    ∷ ("monitoring.coreos.com" ∷ "kafka.strimzi.io" ∷ "zookeeper.pravega.io"
        ∷ "elasticsearch.k8s.elastic.co" ∷ "cert-manager.io" ∷ "bitnami.com" ∷ "acid.zalan.do" ∷ [])
    ∷ ("Deployment" ∷ "StatefulSet" ∷ "DaemonSet" ∷ "Service" ∷ "Ingress" ∷ [])
    ∷ []
    ∷ []

-- `FixNamespaceInRef` of pkg/k8s/k8s_cluster.go; whether a kind has namespaces is the cluster's answer.
unfoldable pub fix_namespace_in_ref : (GroupVersionKind → Option Bool) → ObjectRef → ObjectRef
fix_namespace_in_ref is_namespaced ref = elim (is_namespaced (group_version_kind ref)) [
  | none ↦ ref
  | some namespaced ↦
      if not namespaced && not (str_eq ref.namespace "")
      then record ref { namespace = "" }
      else if namespaced && str_eq ref.namespace ""
      then record ref { namespace = "default" }
      else ref
]

unfoldable pub object_ref_for_exclusion : (GroupVersionKind → Option Bool) → ObjectRef → ObjectRef
unfolding fix_namespace_in_ref
object_ref_for_exclusion is_namespaced ref = record (fix_namespace_in_ref is_namespaced ref) {
  version = "";
}

abbrev pub group_kinds : List GroupVersionKind → List GroupKind
group_kinds [] = []
group_kinds (gvk ∷ gvks) = record { group = gvk.group; kind = gvk.kind } ∷ group_kinds gvks

abbrev pub names : List ObjectRef → List String
names [] = []
names (ref ∷ refs) = ref.name ∷ names refs

-- Whether a resource is one of a step of the order: an empty step takes every resource.
unfoldable pub filter_func : List String → ApiResource → Bool
filter_func api_filter ar =
    if is_empty api_filter
    then true
    else any (λ f. str_eq ar.name f || str_eq ar.group f || str_eq ar.kind f) api_filter

module _ {Obj : Type 0} (objects : ObjectApi Obj)
    (is_namespaced : GroupVersionKind → Option Bool) where
  open objects use {ref_of, annotation, owner_references, managed_fields, manager}

  -- The tests of the loop over the objects: whether it keeps one.
  unfoldable pub is_deletable : List GroupKind → Bool → List ObjectRef → Obj → Bool
  unfolding parse_bool_or_false
  is_deletable filtered_resources inclusion_has_tags excluded x =
      let ref = ref_of x in
      if not (contains filtered_resources (group_kind ref))
      then false
      else if is_skip_delete objects x
      then false
      else if not (is_empty (owner_references x))
      then false
      else if is_empty (managed_fields x)
      then false
      else if not (any (λ mf. str_eq (manager mf) "kluctl") (managed_fields x))
      then false
      else if contains excluded (object_ref_for_exclusion is_namespaced ref)
      then false
      else if inclusion_has_tags
          && parse_bool_or_false (annotation x "kluctl.io/skip-delete-if-tags")
      then false
      else true

  unfoldable pub filter_objects_for_delete :
      Discovery → List Obj → List String → Bool → List ObjectRef → Result (List Obj)
  unfolding is_deletable
  filter_objects_for_delete d xs api_filter inclusion_has_tags excluded =
      get_filtered_preferred_gvks d (filter_func api_filter) >>= λ gvks.
      ok (select (is_deletable (group_kinds gvks) inclusion_has_tags excluded) xs)

  -- The objects of one step are excluded from the steps after it.
  abbrev pub exclude_all : List Obj → List ObjectRef → List ObjectRef
  exclude_all [] excluded = excluded
  exclude_all (x ∷ xs) excluded =
      exclude_all xs (add (object_ref_for_exclusion is_namespaced (ref_of x)) excluded)

  unfoldable pub find_steps :
      Discovery → List Obj → Bool → List (List String) → List ObjectRef → Result (List ObjectRef)
  unfolding filter_objects_for_delete
  find_steps d xs inclusion_has_tags [] excluded = ok []
  find_steps d xs inclusion_has_tags (api_filter ∷ steps) excluded =
      filter_objects_for_delete d xs api_filter inclusion_has_tags excluded >>= λ l.
      find_steps d xs inclusion_has_tags steps (exclude_all l excluded) >>= λ rest.
      ok (map ref_of l ++ rest)

  abbrev pub excluded_map : List ObjectRef → List ObjectRef
  excluded_map [] = []
  excluded_map (ref ∷ refs) = add (object_ref_for_exclusion is_namespaced ref) (excluded_map refs)

  unfoldable pub find_objects_for_delete :
      Discovery → List Obj → Bool → List ObjectRef → Result (List ObjectRef)
  unfolding find_steps
  find_objects_for_delete d xs inclusion_has_tags excluded =
      find_steps d xs inclusion_has_tags delete_order (excluded_map excluded)

abbrev pub is_namespace : ObjectRef → Bool
is_namespace ref = str_eq ref.group "" && str_eq ref.version "v1" && str_eq ref.kind "Namespace"

-- What `DeleteObjects` has done so far.
pub record Deletion (World : Type 0) : Type 0 where
  pub deleted : List ObjectRef
  pub dew : DeploymentErrorsAndWarnings
  pub world : World

module _ {Obj World : Type 0} (k : K8sCluster Obj World) (sprintf : String → String) where
  -- `handleResult`
  abbrev pub record_deletion : ObjectRef → Option ApiError → Deletion World → Deletion World
  record_deletion ref none s = record s { deleted = s.deleted ++ (ref ∷ []) }
  record_deletion ref (some e) s = record s { dew = add_error ref e.message s.dew }

  unfoldable pub delete_one : Bool → ObjectRef → Deletion World → Deletion World
  delete_one do_wait ref s =
      let r = delete_single_object k false (not do_wait) true ref s.world in
      let t = record_deletion ref r.error (record s { world = r.world }) in
      record t { dew = add_api_warnings sprintf ref r.warnings t.dew }

  -- One group of deletions, in the order in which its goroutines take their turns.
  unfoldable pub delete_wave : Bool → List ObjectRef → Deletion World → Deletion World
  unfolding delete_one
  delete_wave do_wait [] s = s
  delete_wave do_wait (ref ∷ refs) s = delete_wave do_wait refs (delete_one do_wait ref s)

  -- The namespaces go first; what is in one of them is left to its deletion. `schedule` orders the
  -- goroutines of a group.
  unfoldable pub delete_objects :
      (List ObjectRef → List ObjectRef)
      → List ObjectRef
      → DeploymentErrorsAndWarnings
      → Bool
      → World
      → Deletion World
  unfolding delete_wave
  delete_objects schedule refs dew do_wait w =
      let namespaces = select is_namespace refs in
      let others =
        select (λ ref. not (is_namespace ref) && not (contains (names namespaces) ref.namespace))
          refs in
      delete_wave do_wait (schedule others)
        (delete_wave do_wait (schedule namespaces) (record { deleted = []; dew = dew; world = w }))
