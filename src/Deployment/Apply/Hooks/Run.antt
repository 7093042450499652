-- ===== src/Deployment/Apply/Hooks/Run.antt =====
-- pkg/deployment/utils/hooks_util.go: `DetermineHooks` and `RunHooks`.
use kluctl.Prelude.{
  String, Bool, true, false, ◌&&◌, ◌||◌, not, Option, none, some, List, [], ◌∷◌, ◌++◌, select,
  if◌then◌else◌, contains, Map, lookup, insert, string_eq, is_empty,
}
use kluctl.Types.ObjectRef.{ObjectRef, ref_eq}
use kluctl.Deployment.Errors.{had_error}
use kluctl.Deployment.Apply.{Env, ApplyUtil, delete_object}
use kluctl.Deployment.Apply.Object.{apply_object}
use kluctl.Deployment.Apply.Wait.{wait_readiness}
use kluctl.Deployment.Apply.Hooks.{Hook, Texts, get_sorted_hooks_list, is_one_of}

abbrev pub has_policy : {Obj : Type 0} → String → Hook Obj → Bool
has_policy p h = contains h.delete_policies p

-- Whether a hook is deleted after it ran: by its policies, and by the result of waiting for it, if
-- there is one.
abbrev pub is_deleted_after : {Obj : Type 0} → Hook Obj → Option Bool → Bool
is_deleted_after h none = false
is_deleted_after h (some true) = has_policy "hook-succeeded" h
is_deleted_after h (some false) = has_policy "hook-failed" h

module _ {Obj World : Type 0} (env : Env Obj World) (t : Texts) where
  open env use {objects, o}
  open objects use {ref_of}

  unfoldable pub determine_hooks :
      List Obj → List String → ApplyUtil Obj World → List (Hook Obj) × ApplyUtil Obj World
  unfolding get_sorted_hooks_list
  determine_hooks xs hooks a =
      let (hs, b) = get_sorted_hooks_list env t xs a in (select (is_one_of env t hooks) hs, b)

  -- `doDeleteForPolicy`, for each hook
  unfoldable pub delete_hooks : List (Hook Obj) → ApplyUtil Obj World → ApplyUtil Obj World
  delete_hooks [] a = a
  delete_hooks (h ∷ hs) a = delete_hooks hs (delete_object env (ref_of h.object) true a).1

  -- The state, and the results of waiting.
  abbrev pub Waited : Type 0
  Waited = Map ObjectRef Bool × ApplyUtil Obj World

  unfoldable pub apply_hook : Hook Obj → Waited → Waited
  apply_hook h (results, a) =
      let ref = ref_of h.object in
      let b = apply_object env h.object (has_policy "before-hook-creation" h) true a in
      if had_error ref b.dew
      then (results, b)
      else if not h.wait || o.no_wait
      then (results, b)
      else (let (r, c) = wait_readiness env ref h.timeout b in (insert ref r results, c))

  unfoldable pub apply_hooks : List (Hook Obj) → Waited → Waited
  unfolding apply_hook
  apply_hooks [] w = w
  apply_hooks (h ∷ hs) w = apply_hooks hs (apply_hook h w)

  -- The hooks to delete afterwards, the last one first.
  unfoldable pub delete_after : List (Hook Obj) → Map ObjectRef Bool → List (Hook Obj)
  delete_after [] results = []
  delete_after (h ∷ hs) results =
      let rest = delete_after hs results in
      if is_deleted_after h (lookup (ref_of h.object) results) then rest ++ (h ∷ []) else rest

  -- `RunHooks`; the abort signal is looked at once for each hook before the first request, so that it
  -- stops either all of them or none.
  unfoldable pub run_hooks : List (Hook Obj) → ApplyUtil Obj World → ApplyUtil Obj World
  unfolding delete_hooks apply_hooks delete_after
  run_hooks hooks a =
      if a.abort_signal && not (is_empty hooks)
      then a
      else (let b = delete_hooks (select (has_policy "before-hook-creation") hooks) a in
          let (results, c) = apply_hooks hooks ([], b) in
          delete_hooks (delete_after hooks results) c)
