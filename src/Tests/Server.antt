-- ===== src/Tests/Server.antt =====
-- A small API server to run pkg/deployment/utils against: it keeps objects by reference, answers a dry
-- request without a change, and reports what is missing as not found.
use kluctl.Prelude.{
  ◌==◌, ltb, suc, if◌then◌else◌, String, Bool, true, false, Option, none, some, List, [], ◌∷◌, Map,
  lookup, insert, delete, has, pos, ok, if◌then◌else◌, string_eq,
}
use kluctl.Types.ObjectRef.{ObjectRef, ref_eq}
use kluctl.K8s.{Request, patch, update, remove, read, Answer, ApiError, not_found, K8sCluster}
use kluctl.K8s.Resources.{Discovery}
use kluctl.Deployment.Errors.{DeploymentErrorsAndWarnings}
use kluctl.Deployment.Apply.{tick, timed_out, ApplyUtilOptions, ObjectApi, resolved, Env, ApplyUtil}
use kluctl.Deployment.Apply.Hooks.{Texts}

pub record Item : Type 0 where
  pub ref : ObjectRef
  pub annotations : Map String String
  pub managers : List String

abbrev pub config_map : String → ObjectRef
config_map n = record {
  group = "";
  version = "v1";
  kind = "ConfigMap";
  name = n;
  namespace = "default";
}

abbrev pub plain : String → Item
plain n = record { ref = config_map n; annotations = []; managers = "kluctl" ∷ [] }

abbrev pub items : ObjectApi Item
items = record {
  ref_of = λ x. x.ref;
  annotation = λ x name. lookup name x.annotations;
  set_name = λ n x. record x { ref = record x.ref { name = n } };
  set_namespace = λ n x. record x { ref = record x.ref { namespace = n } };
  resource_version = λ x. "";
  set_resource_version = λ v x. x;
  replace_keys = λ a b x. x;
  replace_values = λ a b x. x;
  owner_references = λ x. [];
  managed_fields = λ x. if has "managed" x.annotations then x ∷ [] else [];
  manager = λ x. "kluctl";
  crd_kinds = λ x. [];
}

abbrev pub Stored : Type 0
Stored = Map ObjectRef Item

abbrev pub missing : ApiError
missing = record { reason = not_found; message = "not found"; is_status = true }

abbrev pub answer : Item → Option ApiError → Stored → Answer Item Stored
answer x e w = record { object = x; warnings = []; error = e; world = w }

abbrev pub found_or_missing : Option Item → Stored → Answer Item Stored
found_or_missing none w = answer (plain "") (some missing) w
found_or_missing (some x) w = answer x none w

abbrev pub removed : Bool → ObjectRef → Option Item → Stored → Answer Item Stored
removed dry ref none w = answer (plain "") (some missing) w
removed true ref (some x) w = answer x none w
removed false ref (some x) w = answer x none (delete ref w)

abbrev pub serve : Request Item → Stored → Answer Item Stored
serve (patch true forced x) w = answer x none w
serve (patch false forced x) w = answer x none (insert x.ref x w)
serve (update true x) w = answer x none w
serve (update false x) w = answer x none (insert x.ref x w)
serve (remove dry ref) w = removed dry ref (lookup ref w) w
serve (read ref) w = found_or_missing (lookup ref w) w

abbrev pub cluster : K8sCluster Item Stored
cluster = record {
  dry_run = false;
  call = serve;
  reset_mapper = λ w. w;
  ref_of = λ x. x.ref;
  fix_object_for_patch = λ x. x;
  deletion_polls = λ ref. 2;
}

abbrev pub options : Bool → ApplyUtilOptions
options dry = record {
  force_apply = false;
  replace_on_error = false;
  force_replace_on_error = true;
  dry_run = dry;
  abort_on_error = true;
  readiness_timeout = 5;
  no_wait = false;
}

-- An object is ready if it is annotated so, and failed if it is annotated so.
abbrev pub environment : Bool → Env Item Stored
environment dry = record {
  objects = items;
  k = cluster;
  remote_objects = [];
  remote_namespaces = [];
  o = options dry;
  gk_string = λ gk. gk.kind;
  sprintf = λ s. s;
  random_string = λ w. "x";
  resolve_conflicts = λ x y e. resolved x [];
  validate_object = λ x. record { ready = has "ready" x.annotations; errors = [] };
  selected = λ ref timeout round. if ltb round timeout then tick else timed_out;
  rounds = λ ref timeout. suc timeout;
}

abbrev pub no_errors : DeploymentErrorsAndWarnings
no_errors = record { errors = []; warnings = [] }

abbrev pub start : Stored → ApplyUtil Item Stored
start w = record {
  dew = no_errors;
  error_count = 0;
  warning_count = 0;
  new_objects = [];
  applied_objects = [];
  applied_hook_objects = [];
  deleted_objects = [];
  deleted_hook_objects = [];
  abort_signal = false;
  all_namespaces = [];
  all_crds = [];
  world = w;
}

abbrev pub discovery : Discovery
discovery = record {
  api_group_resources = ok (
      record {
        group_name = "";
        preferred_version = "v1";
        versioned_resources =
            (
              "v1",
              record {
                name = "configmaps";
                group = "";
                version = "v1";
                kind = "ConfigMap";
                verbs = "list" ∷ [];
              }
                  ∷ [],
            )
            ∷ [];
      }
      ∷ []);
  has_slash = λ s. false;
}

abbrev pub texts : Texts
texts = record {
  split = λ s. s ∷ [];
  trim_space = λ s. s;
  parse_int = λ s. (if s == "2" then pos 2 else pos 1, none);
  parse_duration = λ s. ok 1;
}
