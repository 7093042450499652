-- ===== src/Deployment/Apply/Hooks.antt =====
-- pkg/deployment/utils/hooks_util.go: the hooks of a deployment item, and running them.
pub mod Order
pub mod Run
use Prim.Native.String.{◌++◌ as str_append}
use text.Mathlib.Text.{◌==◌ as str_eq}
use kluctl.Prelude.{
  String, ℕ, zero, suc, ℤ, pos, int_ltb, Bool, true, false, ◌&&◌, ◌||◌, not, Option, none, some,
  List, [], ◌∷◌, ◌++◌, is_empty, if◌then◌else◌, any, contains, add, Map, lookup, insert, Result, ok,
  err, panicked, string_eq, slice_stable,
}
use kluctl.Types.ObjectRef.{ObjectRef, ref_eq}
use kluctl.Utils.Parse.{parse_bool, parse_bool_or_false, find_str_in_slice}
use kluctl.K8s.{errorf}
use kluctl.Deployment.Errors.{had_error}
use kluctl.Deployment.Apply.{
  ApplyUtilOptions, ObjectApi, Env, ApplyUtil, handle_error, handle_warning, delete_object, is_some,
}
use kluctl.Deployment.Apply.Object.{apply_object}
use kluctl.Deployment.Apply.Wait.{wait_readiness}

abbrev pub supported_kluctl_hooks : List String
supported_kluctl_hooks =
    "pre-deploy" ∷ "post-deploy" ∷ "pre-deploy-initial" ∷ "post-deploy-initial"
    ∷ "pre-deploy-upgrade" ∷ "post-deploy-upgrade" ∷ []

abbrev pub supported_kluctl_delete_policies : List String
supported_kluctl_delete_policies = "before-hook-creation" ∷ "hook-succeeded" ∷ "hook-failed" ∷ []

abbrev pub supported_helm_hooks : List String
supported_helm_hooks =
    "pre-install" ∷ "post-install" ∷ "pre-upgrade" ∷ "post-upgrade" ∷ "pre-delete" ∷ "post-delete"
    ∷ "pre-rollback" ∷ "post-rollback" ∷ []

-- The sets `hooks` and `delete_policies` are lists, in the order in which they are met.
pub record Hook (Obj : Type 0) : Type 0 where
  pub object : Obj
  pub hooks : List String
  pub weight : ℤ
  pub delete_policies : List String
  pub wait : Bool
  pub timeout : ℕ

-- Go's strings, strconv and time.
pub record Texts : Type 0 where
  -- `strings.Split(s, ",")`
  pub split : String → List String
  pub trim_space : String → String
  -- `strconv.ParseInt(s, 10, 32)`: its value also where it fails, and its error
  pub parse_int : String → ℤ × Option String
  pub parse_duration : String → Result ℕ

-- The entries of a comma-separated annotation, as a set.
unfoldable pub get_set : Texts → Option String → List String
get_set t none = []
get_set t (some s) = collect (t.split s) []
  where
    collect : List String → List String → List String
    collect [] ret = ret
    collect (x ∷ xs) ret =
        let y = t.trim_space x in collect xs (if str_eq y "" then ret else add y ret)

abbrev or_else : Option String → Option String → Option String
or_else none b = b
or_else (some a) b = some a

abbrev or_default : Option String → String → String
or_default none d = d
or_default (some a) d = a

abbrev add_all : List String → List String → List String
add_all [] s = s
add_all (x ∷ xs) s = add_all xs (add x s)

-- One pair of the compatibility with helm's hooks.
abbrev helm_compatibility : List String → String → String → List String → List String
helm_compatibility helm_hooks helm_name kluctl_name hooks =
    if contains helm_hooks helm_name then add kluctl_name hooks else hooks

abbrev with_helm_hooks : List String → List String → List String
with_helm_hooks helm hooks = helm_compatibility helm "post-delete" "post-delete" (
    helm_compatibility helm "pre-delete" "pre-delete" (
      helm_compatibility helm "post-upgrade" "post-deploy-upgrade" (
        helm_compatibility helm "post-install" "post-deploy-initial" (
          helm_compatibility helm "pre-upgrade" "pre-deploy-upgrade"
            (helm_compatibility helm "pre-install" "pre-deploy-initial" hooks)))))

-- The closure that `getSortedHooksList` sorts by.
abbrev pub is_lighter : {Obj : Type 0} → Hook Obj → Hook Obj → Bool
is_lighter g h = int_ltb g.weight h.weight

module _ {Obj World : Type 0} (env : Env Obj World) (t : Texts) where
  open env use {objects, o}
  open objects use {ref_of, annotation}

  -- An error, or a warning, for every entry that is not supported.
  abbrev reject :
      (String → ApplyUtil Obj World → ApplyUtil Obj World)
      → List String
      → List String
      → ApplyUtil Obj World
      → ApplyUtil Obj World
  reject report supported [] a = a
  reject report supported (x ∷ xs) a =
      reject report supported xs (if is_some (find_str_in_slice supported x) then a else report x a)

  abbrev check_error :
      ObjectRef → String → Option String → ApplyUtil Obj World → ApplyUtil Obj World
  check_error ref text none a = a
  check_error ref text (some e) a = handle_error env ref (errorf (str_append text e)) a

  abbrev waits : ObjectRef → String → Option Bool → ApplyUtil Obj World → Bool × ApplyUtil Obj World
  waits ref s (some b) a = (b, a)
  waits ref s none a = (
    true,
    handle_error env ref (errorf (str_append "failed to parse " (str_append s " as bool"))) a,
  )

  abbrev timeout_of : ObjectRef → Option (Result ℕ) → ApplyUtil Obj World → ℕ × ApplyUtil Obj World
  timeout_of ref none a = (0, a)
  timeout_of ref (some (ok d)) a = (d, a)
  timeout_of ref (some (err e)) a =
      (0, handle_error env ref (errorf (str_append "failed to parse duration: " e)) a)
  timeout_of ref (some panicked) a = (0, a)

  abbrev duration : Option String → Option (Result ℕ)
  duration none = none
  duration (some s) = some (t.parse_duration s)

  abbrev delete_policies_of : Obj → List String
  delete_policies_of x =
      let p =
        add_all (get_set t (annotation x "helm.sh/hook-delete-policy"))
          (get_set t (annotation x "kluctl.io/hook-delete-policy")) in
      if is_empty p then "before-hook-creation" ∷ [] else p

  -- `GetHook`; the errors and warnings are recorded in the order of the source.
  unfoldable pub get_hook : Obj → ApplyUtil Obj World → Option (Hook Obj) × ApplyUtil Obj World
  unfolding get_set find_str_in_slice parse_bool parse_bool_or_false
  get_hook x a =
      let ref = ref_of x in
      if parse_bool_or_false (annotation x "kluctl.io/delete")
      then (none, a)
      else (let kluctl_hooks = get_set t (annotation x "kluctl.io/hook") in
          let b =
            reject
              (λ h.
                handle_error env ref
                  (errorf (str_append "unsupported kluctl.io/hook '" (str_append h "'"))))
              supported_kluctl_hooks kluctl_hooks a in
          let helm_hooks = get_set t (annotation x "helm.sh/hook") in
          let c =
            reject
              (λ h.
                handle_warning env ref (str_append "unsupported helm.sh/hook '" (str_append h "'")))
              supported_helm_hooks helm_hooks b in
          let hooks = with_helm_hooks helm_hooks kluctl_hooks in
          let weight_str =
            or_default
              (or_else (annotation x "kluctl.io/hook-weight") (annotation x "helm.sh/hook-weight"))
              "0" in
          let (weight, weight_error) = t.parse_int weight_str in
          let d = check_error ref "failed to parse hook weight: " weight_error c in
          let delete_policies = delete_policies_of x in
          let e =
            reject
              (λ p. handle_error env ref (
                errorf
                  (str_append "unsupported kluctl.io/hook-delete-policy '" (str_append p "'"))))
              supported_kluctl_delete_policies delete_policies d in
          let wait_str = or_default (annotation x "kluctl.io/hook-wait") "true" in
          let (wait, f) = waits ref wait_str (parse_bool wait_str) e in
          let (timeout, g) = timeout_of ref (duration (annotation x "kluctl.io/hook-timeout")) f in
          if is_empty hooks then (none, g) else (
            some (record {
              object = x;
              hooks = hooks;
              weight = weight;
              delete_policies = delete_policies;
              wait = wait;
              timeout = timeout;
            }),
            g,
          ))

  abbrev pub cons_hook : {H : Type 0} → Option H → List H → List H
  cons_hook none hs = hs
  cons_hook (some h) hs = h ∷ hs

  unfoldable pub get_hooks : List Obj → ApplyUtil Obj World → List (Hook Obj) × ApplyUtil Obj World
  unfolding get_hook
  get_hooks [] a = ([], a)
  get_hooks (x ∷ xs) a =
      let (h, b) = get_hook x a in let (hs, c) = get_hooks xs b in (cons_hook h hs, c)

  -- `getSortedHooksList`
  unfoldable pub get_sorted_hooks_list :
      List Obj → ApplyUtil Obj World → List (Hook Obj) × ApplyUtil Obj World
  unfolding get_hooks slice_stable
  get_sorted_hooks_list xs a = let (hs, b) = get_hooks xs a in (slice_stable is_lighter hs, b)

  abbrev pub is_one_of : List String → Hook Obj → Bool
  is_one_of hooks h = any (λ x. is_some (find_str_in_slice hooks x)) h.hooks
