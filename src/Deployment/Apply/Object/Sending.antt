-- ===== src/Deployment/Apply/Object/Sending.antt =====
-- pkg/deployment/utils/apply_utils.go: the requests that the retries of one object send.
use kluctl.Prelude.{
  ◌≡◌, refl, sym, Bool, true, false, ◌||◌, ◌&&◌, not, Option, none, some, List, [], ◌∷◌,
  if◌then◌else◌, subst, Bool-cases, inl, inr, arith,
}
use kluctl.Types.ObjectRef.{ObjectRef, gvk_eq}
use kluctl.K8s.{
  Request, patch, update, remove, read, Outcome, ApiError, apply_object as k8s_apply_object,
  update_object, delete_single_object,
}
use kluctl.K8s.Requests.{
  Reach, Reach-trans, apply_object-Reach, update_object-Reach, delete_single_object-Reach,
}
use kluctl.Deployment.Apply.{
  Resolution, resolved, unresolved, LostOwnership, Env, ApplyUtil, handle_result, handle_warning,
  handle_error, after_request, handle_api_warnings, delete_object, after_delete, mark_deleted,
  is_skip_delete,
}
use kluctl.Deployment.Apply.Object.{
  recorded, finish, apply_again, remote_is_skip_delete, retry_apply_force_replace,
  retry_apply_with_replace, warn_lost, force_apply, apply_resolved, retry_apply_with_conflicts,
}

module _ {Obj World : Type 0} (env : Env Obj World) where
  open env use {objects, k, remote_objects, remote_namespaces, o}
  open objects use {ref_of}

  abbrev pub is_dry : Bool
  is_dry = k.dry_run || o.dry_run

  -- What the options permit: a dry run sends dry requests only, an update needs one of the replace
  -- options, and a deletion the option to force it.
  abbrev pub Permitted : Request Obj → Type 0
  Permitted (patch dry forced x) = dry ≡ is_dry
  Permitted (update dry x) =
      (dry ≡ is_dry) × ((o.replace_on_error || o.force_replace_on_error) ≡ true)
  Permitted (remove dry ref) = (dry ≡ is_dry) × (o.force_replace_on_error ≡ true)
  Permitted (read ref) = Unit

  abbrev pub Sent : World → ApplyUtil Obj World → Type 0
  Sent v a = Reach k Permitted v a.world

module _ {Obj World : Type 0} (env : Env Obj World) where
  open env use {objects, k, remote_objects, o}
  open objects use {ref_of}

  pub if-Sent :
      {v : World} (b : Bool) (x y : ApplyUtil Obj World)
      → (b ≡ true → Sent env v x)
      → (b ≡ false → Sent env v y)
      → Sent env v (if b then x else y)
  if-Sent true x y f g = f refl
  if-Sent false x y f g = g refl

  finish-Sent :
      {v : World} (hook : Bool) (y : Option Obj) (e : Option ApiError)
      (failed : ApiError → ApplyUtil Obj World → ApplyUtil Obj World) (a : ApplyUtil Obj World)
      → ((err : ApiError) → Sent env v (failed err a))
      → Sent env v a
      → Sent env v (finish env hook y e failed a)
  unfolding handle_result
  finish-Sent hook y (some err) failed a f s = f err
  finish-Sent hook (some y) none failed a f s = s
  finish-Sent hook none none failed a f s = s

  -- Recording a request's results sends nothing, but for what `failed` sends.
  pub recorded-Sent :
      {v : World} (ref : ObjectRef) (hook : Bool) (r : Outcome Obj World)
      (failed : ApiError → ApplyUtil Obj World → ApplyUtil Obj World) (a : ApplyUtil Obj World)
      → ((err : ApiError) (b : ApplyUtil Obj World) → Sent env v b → Sent env v (failed err b))
      → Reach k (Permitted env) v r.world
      → Sent env v (recorded env ref hook r failed a)
  unfolding after_request handle_api_warnings
  recorded-Sent ref hook r failed a f s =
      let b = after_request env ref r a in
      finish-Sent hook r.object r.error failed b (λ err. f err b s) s

  pub handle_error-Sent :
      {v : World} (ref : ObjectRef) (err : ApiError) (a : ApplyUtil Obj World)
      → Sent env v a
      → Sent env v (handle_error env ref err a)
  unfolding handle_error
  handle_error-Sent ref err a s = s

  mark_deleted-Sent :
      {v : World} (ref : ObjectRef) (hook : Bool) (a : ApplyUtil Obj World)
      → Sent env v a
      → Sent env v (mark_deleted env ref hook a)
  unfolding mark_deleted
  mark_deleted-Sent ref true a s = s
  mark_deleted-Sent ref false a s = s

  pub patch-Sent :
      {v : World} (forced : Bool) (x : Obj) (w : World)
      → Reach k (Permitted env) v w
      → Reach k (Permitted env) v (k8s_apply_object k o.dry_run forced x w).world
  patch-Sent forced x w s = Reach-trans k s (apply_object-Reach k o.dry_run forced x w refl)

  after_delete-world :
      (ref : ObjectRef) (hook : Bool) (e : Option ApiError) (a : ApplyUtil Obj World)
      → (after_delete env ref hook e a).1.world ≡ a.world
  unfolding after_delete mark_deleted handle_error
  after_delete-world ref hook none a = ground arith
  after_delete-world ref hook (some e) a = ground arith

  delete_object-Sent :
      {v : World} (ref : ObjectRef) (hook : Bool) (a : ApplyUtil Obj World)
      → o.force_replace_on_error ≡ true
      → Sent env v a
      → Sent env v (delete_object env ref hook a).1
  unfolding delete_object after_request handle_api_warnings
  delete_object-Sent {v} ref hook a p s =
      let r = delete_single_object k o.dry_run false false ref a.world in
      subst (λ w. Reach k (Permitted env) v w)
        (sym (after_delete-world ref hook r.error (after_request env ref r a)))
        (Reach-trans k s
          (delete_single_object-Reach k o.dry_run false false ref a.world (refl, p) tt))

  apply_again-Sent :
      {v : World} (x : Obj) (hook deleted : Bool) (a : ApplyUtil Obj World)
      → Sent env v a
      → Sent env v (apply_again env x hook deleted a)
  unfolding apply_again handle_result
  apply_again-Sent x hook deleted a s =
      if-Sent (not deleted) _ _ (λ _. s)
        (λ _.
          if-Sent o.dry_run _ _ (λ _. s)
            (λ _.
              recorded-Sent (ref_of x) hook (k8s_apply_object k o.dry_run false x a.world) _ a
                (λ err b. handle_error-Sent (ref_of x) err b) (patch-Sent false x a.world s)))

  force_replace-Sent :
      {v : World} (x : Obj) (hook : Bool) (remote : Option Obj) (err : ApiError)
      (a : ApplyUtil Obj World)
      → Sent env v a
      → Sent env v (retry_apply_force_replace env x hook remote err a)
  unfolding retry_apply_force_replace handle_warning
  force_replace-Sent x hook remote err a s = elim (Bool-cases o.force_replace_on_error) [
    | inr f ↦
        if-Sent (not o.force_replace_on_error) _ _ (λ _. handle_error-Sent (ref_of x) err a s)
          (λ g. ground (arith, f, g))
    | inl t ↦
        if-Sent (not o.force_replace_on_error) _ _ (λ _. handle_error-Sent (ref_of x) err a s)
          (λ _.
            if-Sent (is_skip_delete objects x || remote_is_skip_delete env remote) _ _
              (λ _. handle_error-Sent (ref_of x) err a s)
              (λ _. apply_again-Sent x hook _ _ (delete_object-Sent (ref_of x) hook _ t s)))
  ]

  replace_option : (b c : Bool) → (not b && not c) ≡ false → (b || c) ≡ true
  replace_option true c e = refl
  replace_option false true e = refl
  replace_option false false e = cc

  pub with_replace-Sent :
      {v : World} (x : Obj) (hook : Bool) (remote : Option Obj) (err : ApiError)
      (a : ApplyUtil Obj World)
      → Sent env v a
      → Sent env v (retry_apply_with_replace env x hook remote err a)
  unfolding retry_apply_with_replace handle_warning
  with_replace-Sent x hook none err a s = handle_error-Sent (ref_of x) err a s
  with_replace-Sent x hook (some remote) err a s =
      if-Sent (not o.replace_on_error && not o.force_replace_on_error) _ _
        (λ _. handle_error-Sent (ref_of x) err a s)
        (λ g.
          recorded-Sent (ref_of x) hook (update_object k o.dry_run x a.world) _ _
            (λ e b. force_replace-Sent x hook (some remote) e b)
            (Reach-trans k s (
              update_object-Reach k o.dry_run x a.world
                (refl, replace_option o.replace_on_error o.force_replace_on_error g))))

  warn_lost-Sent :
      {v : World} (ref : ObjectRef) (los : List LostOwnership) (a : ApplyUtil Obj World)
      → Sent env v a
      → Sent env v (warn_lost env ref los a)
  warn_lost-Sent ref [] a s = s
  warn_lost-Sent ref (lo ∷ los) a s = warn_lost-Sent ref los _ s

  force_apply-Sent :
      {v : World} (ref : ObjectRef) (hook : Bool) (x : Obj) (a : ApplyUtil Obj World)
      → Sent env v a
      → Sent env v (force_apply env ref hook x a)
  unfolding force_apply
  force_apply-Sent ref hook x a s =
      recorded-Sent ref hook (k8s_apply_object k o.dry_run true x a.world) _ a
        (λ err b. handle_error-Sent ref err b) (patch-Sent true x a.world s)

  apply_resolved-Sent :
      {v : World} (ref : ObjectRef) (hook : Bool) (r : Resolution Obj) (a : ApplyUtil Obj World)
      → Sent env v a
      → Sent env v (apply_resolved env ref hook r a)
  unfolding apply_resolved
  apply_resolved-Sent ref hook (unresolved err) a s = handle_error-Sent ref err a s
  apply_resolved-Sent ref hook (resolved x los) a s =
      force_apply-Sent ref hook x _ (warn_lost-Sent ref los a s)

  pub with_conflicts-Sent :
      {v : World} (x : Obj) (hook : Bool) (remote : Option Obj) (err : ApiError)
      (a : ApplyUtil Obj World)
      → Sent env v a
      → Sent env v (retry_apply_with_conflicts env x hook remote err a)
  unfolding retry_apply_with_conflicts
  with_conflicts-Sent x hook none err a s = handle_error-Sent (ref_of x) err a s
  with_conflicts-Sent x hook (some remote) err a s =
      if-Sent o.force_apply _ _ (λ _. force_apply-Sent (ref_of x) hook x a s)
        (λ _.
          if-Sent (not err.is_status) _ _ (λ _. handle_error-Sent (ref_of x) err a s)
            (λ _. apply_resolved-Sent (ref_of x) hook (env.resolve_conflicts x remote err) a s))
