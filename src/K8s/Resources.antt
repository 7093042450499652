-- ===== src/K8s/Resources.antt =====
-- pkg/k8s/resources.go: the kinds that the discovery client knows, by a filter. The discovery client
-- is a parameter: its answer is given here.
use kluctl.Prelude.{
  String, Bool, true, false, not, Option, none, some, List, [], ◌∷◌, ◌++◌, Map, lookup, contains,
  if◌then◌else◌, Result, ok, string_eq, ◌>>=◌,
}
use kluctl.Types.ObjectRef.{GroupVersionKind, GroupKind, gk_eq}
use text.Mathlib.Text.{◌==◌ as str_eq}

-- `v1.APIResource`
pub record ApiResource : Type 0 where
  pub name : String
  pub group : String
  pub version : String
  pub kind : String
  pub verbs : List String

-- `restmapper.APIGroupResources`
pub record ApiGroupResources : Type 0 where
  pub group_name : String
  pub preferred_version : String
  pub versioned_resources : Map String (List ApiResource)

-- What `doGetApiGroupResources` returns, and `strings.Index(name, "/") != -1`.
pub record Discovery : Type 0 where
  pub api_group_resources : Result (List ApiGroupResources)
  pub has_slash : String → Bool

abbrev pub deprecated_resources : List GroupKind
deprecated_resources =
    record { group = "extensions"; kind = "Ingress" }
    ∷ record { group = ""; kind = "ComponentStatus" }
    ∷ []

module _ (d : Discovery) where
  unfoldable pub do_get_filtered_gvks :
      String → String → (ApiResource → Bool) → List ApiResource → List GroupVersionKind
  do_get_filtered_gvks g v filter [] = []
  do_get_filtered_gvks g v filter (vr ∷ vrs) =
      let rest = do_get_filtered_gvks g v filter vrs in
      if d.has_slash vr.name
      then rest
      else if contains deprecated_resources (record { group = g; kind = vr.kind })
      then rest
      else if not (filter vr)
      then rest
      else record { group = g; version = v; kind = vr.kind } ∷ rest

  unfoldable pub all_versions :
      String → (ApiResource → Bool) → Map String (List ApiResource) → List GroupVersionKind
  unfolding do_get_filtered_gvks
  all_versions g filter [] = []
  all_versions g filter ((v, vrs) ∷ m) =
      do_get_filtered_gvks g v filter vrs ++ all_versions g filter m

  unfoldable pub all_groups : (ApiResource → Bool) → List ApiGroupResources → List GroupVersionKind
  unfolding all_versions
  all_groups filter [] = []
  all_groups filter (agr ∷ agrs) =
      all_versions agr.group_name filter agr.versioned_resources ++ all_groups filter agrs

  -- `GetFilteredGVKs`; the versions of a group are met in the order of the map.
  unfoldable pub get_filtered_gvks : (ApiResource → Bool) → Result (List GroupVersionKind)
  unfolding all_groups
  get_filtered_gvks filter = d.api_group_resources >>= λ agrs. ok (all_groups filter agrs)

  -- One group's kinds in its preferred version, if that is served.
  abbrev pub of_version :
      ApiGroupResources → (ApiResource → Bool) → Option (List ApiResource) → List GroupVersionKind
  of_version agr filter none = []
  of_version agr filter (some vrs) =
      do_get_filtered_gvks agr.group_name agr.preferred_version filter vrs

  unfoldable pub preferred : (ApiResource → Bool) → List ApiGroupResources → List GroupVersionKind
  preferred filter [] = []
  preferred filter (agr ∷ agrs) =
      of_version agr filter (lookup agr.preferred_version agr.versioned_resources)
      ++ preferred filter agrs

  -- `GetFilteredPreferredGVKs`
  unfoldable pub get_filtered_preferred_gvks : (ApiResource → Bool) → Result (List GroupVersionKind)
  unfolding preferred
  get_filtered_preferred_gvks filter = d.api_group_resources >>= λ agrs. ok (preferred filter agrs)

-- `p != nil && *p != s`
abbrev pub differs : Option String → String → Bool
differs none s = false
differs (some p) s = not (str_eq p s)

unfoldable pub build_gvk_filter : Option String → Option String → Option String → ApiResource → Bool
build_gvk_filter group version kind ar =
    if differs group ar.group
    then false
    else if differs version ar.version
    then false
    else if differs kind ar.kind
    then false
    else true
