-- ===== src/Types/ObjectRef.antt =====
-- pkg/types/k8s/ref.go: the identity of a Kubernetes object.
use Prim.Native.String.{◌++◌}
use text.Mathlib.Text.{◌==◌ as str_eq}
use kluctl.Prelude.{String, ◌≡◌, ◌↔◌, Bool, true, ◌&&◌, Eq, arith, eq_iff, if◌then◌else◌}

pub record ObjectRef : Type 0 where
  pub group : String
  pub version : String
  pub kind : String
  pub name : String
  pub namespace : String

pub record GroupVersionKind : Type 0 where
  pub group : String
  pub version : String
  pub kind : String

pub record GroupKind : Type 0 where
  pub group : String
  pub kind : String

pub record GroupVersion : Type 0 where
  pub group : String
  pub version : String

-- `ObjectRef.String`
unfoldable pub to_string : ObjectRef → String
to_string r =
    if str_eq r.namespace ""
    then if str_eq r.name "" then r.kind else r.kind ++ "/" ++ r.name
    else r.namespace ++ "/" ++ r.kind ++ "/" ++ r.name

unfoldable pub group_version_kind : ObjectRef → GroupVersionKind
group_version_kind r = record { group = r.group; version = r.version; kind = r.kind }

unfoldable pub group_kind : ObjectRef → GroupKind
group_kind r = record { group = r.group; kind = r.kind }

unfoldable pub group_version : ObjectRef → GroupVersion
group_version r = record { group = r.group; version = r.version }

unfoldable pub new_object_ref : String → String → String → String → String → ObjectRef
new_object_ref group version kind name namespace = record {
  group = group;
  version = version;
  kind = kind;
  name = name;
  namespace = namespace;
}

-- The zero value `k8s.ObjectRef{}`.
abbrev pub empty_ref : ObjectRef
empty_ref = record { group = ""; version = ""; kind = ""; name = ""; namespace = "" }

-- Go's `==` on the struct compares field by field.
abbrev pub ref_beq : ObjectRef → ObjectRef → Bool
ref_beq a b =
    str_eq a.group b.group
    && str_eq a.version b.version
    && str_eq a.kind b.kind
    && str_eq a.name b.name
    && str_eq a.namespace b.namespace

pub ref_beq_iff : (a b : ObjectRef) → (ref_beq a b ≡ true) ↔ (a ≡ b)
ref_beq_iff a b = ground (
  arith,
  eq_iff a.group b.group,
  eq_iff a.version b.version,
  eq_iff a.kind b.kind,
  eq_iff a.name b.name,
  eq_iff a.namespace b.namespace,
)

instance abbrev pub ref_eq : Eq ObjectRef
ref_eq = record { beq = ref_beq; beq_iff = ref_beq_iff }

abbrev pub gk_beq : GroupKind → GroupKind → Bool
gk_beq a b = str_eq a.group b.group && str_eq a.kind b.kind

pub gk_beq_iff : (a b : GroupKind) → (gk_beq a b ≡ true) ↔ (a ≡ b)
gk_beq_iff a b = ground (arith, eq_iff a.group b.group, eq_iff a.kind b.kind)

instance abbrev pub gk_eq : Eq GroupKind
gk_eq = record { beq = gk_beq; beq_iff = gk_beq_iff }

abbrev pub gvk_beq : GroupVersionKind → GroupVersionKind → Bool
gvk_beq a b = str_eq a.group b.group && str_eq a.version b.version && str_eq a.kind b.kind

pub gvk_beq_iff : (a b : GroupVersionKind) → (gvk_beq a b ≡ true) ↔ (a ≡ b)
gvk_beq_iff a b =
    ground (arith, eq_iff a.group b.group, eq_iff a.version b.version, eq_iff a.kind b.kind)

instance abbrev pub gvk_eq : Eq GroupVersionKind
gvk_eq = record { beq = gvk_beq; beq_iff = gvk_beq_iff }
