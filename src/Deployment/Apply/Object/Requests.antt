-- ===== src/Deployment/Apply/Object/Requests.antt =====
-- pkg/deployment/utils/apply_utils.go: the requests that applying one object sends.
use kluctl.Prelude.{
  ◌≡◌, sym, ◌∙◌, Bool, true, false, ◌&&◌, Option, none, some, subst, arith, contains,
}
use kluctl.Types.ObjectRef.{ObjectRef, group_version_kind, gvk_eq}
use kluctl.K8s.{Request, patch, update, remove, read, Outcome, ApiError}
use kluctl.K8s.Requests.{Reach, stay, reset, Reach-keeps}
use kluctl.Deployment.Apply.{Env, ApplyUtil, handle_result, handle_warning}
use kluctl.Deployment.Apply.Object.{
  is_no_match, is_conflict, no_match_error, retry, conclude, undo_dummy, first_request, apply_with,
  apply_object,
}
use kluctl.Deployment.Apply.Object.Sending.{
  is_dry, Permitted, Sent, if-Sent, recorded-Sent, handle_error-Sent, patch-Sent, with_replace-Sent,
  with_conflicts-Sent,
}

module _ {Obj World : Type 0} (env : Env Obj World) where
  open env use {objects, k, remote_objects, o}
  open objects use {ref_of}

  retry-Sent :
      {v : World} (ref : ObjectRef) (x : Obj) (hook : Bool) (remote : Option Obj) (err : ApiError)
      (a : ApplyUtil Obj World)
      → Sent env v a
      → Sent env v (retry env ref x hook remote err a)
  unfolding retry
  retry-Sent ref x hook remote err a s =
      if-Sent env (is_no_match err) _ _ (λ _. handle_error-Sent env ref err a s)
        (λ _.
          if-Sent env (is_conflict err) _ _ (λ _. with_conflicts-Sent env x hook remote err a s)
            (λ _. with_replace-Sent env x hook remote err a s))

  conclude-Sent :
      {v : World} (ref : ObjectRef) (x : Obj) (hook : Bool) (remote : Option Obj)
      (r : Outcome Obj World) (a : ApplyUtil Obj World)
      → Reach k (Permitted env) v r.world
      → Sent env v (conclude env ref x hook remote r a)
  unfolding conclude
  conclude-Sent ref x hook remote r a s =
      recorded-Sent env ref hook r _ _ (λ err b. retry-Sent ref x hook remote err b) s

  first_request-Sent :
      {v : World} (ref : ObjectRef) (x : Obj) (hook : Bool) (remote : Option Obj) (undo : Obj → Obj)
      (r : Outcome Obj World) (y : Option Obj) (a : ApplyUtil Obj World)
      → Reach k (Permitted env) v r.world
      → Sent env v (first_request env ref x hook remote undo r y a)
  unfolding first_request handle_warning handle_result
  first_request-Sent ref x hook remote undo r (some y) a s =
      conclude-Sent ref x hook remote (record r { object = some (undo y) }) a s
  first_request-Sent ref x hook remote undo r none a s =
      if-Sent env (no_match_error r.error && contains a.all_crds (group_version_kind (ref_of x))) _
        _
        (λ _.
          if-Sent env o.dry_run _ _ (λ _. s)
            (λ _. conclude-Sent ref x hook remote _ a (patch-Sent env false x _ (reset s))))
        (λ _. conclude-Sent ref x hook remote r a s)

  apply_with-Sent :
      {v : World} (ref : ObjectRef) (x : Obj) (y : Option Obj) (hook : Bool)
      (a : ApplyUtil Obj World)
      → Sent env v a
      → Sent env v (apply_with env ref x y hook a)
  unfolding apply_with
  apply_with-Sent ref x none hook a s =
      first_request-Sent ref x hook _ (λ y. y) _ _ a (patch-Sent env false x a.world s)
  apply_with-Sent ref x (some y) hook a s =
      first_request-Sent ref y hook _ (undo_dummy env ref) _ _ a (patch-Sent env false y a.world s)

-- Whatever the server answers, the requests that applying one object sends are those that the options
-- permit: all of them are dry runs exactly if the cluster or the options ask for a dry run, an update
-- is sent only with `replace_on_error` or `force_replace_on_error`, and a deletion only with the latter.
pub apply_object-Permitted :
    {Obj World : Type 0} (env : Env Obj World) (x : Obj) (replaced hook : Bool)
    (a : ApplyUtil Obj World)
    → Reach env.k (Permitted env) a.world (apply_object env x replaced hook a).world
unfolding apply_object
apply_object-Permitted env x replaced hook a = apply_with-Sent env _ _ _ hook a stay

-- If no dry request changes what `P` says of the world, then applying an object in a dry run keeps `P`.
pub apply_object-dry :
    {Obj World : Type 0} (env : Env Obj World) (P : World → Type 0)
    → env.o.dry_run ≡ true
    → ((x : Obj) (forced : Bool) (w : World) → P w → P (env.k.call (patch true forced x) w).world)
    → ((x : Obj) (w : World) → P w → P (env.k.call (update true x) w).world)
    → ((ref : ObjectRef) (w : World) → P w → P (env.k.call (remove true ref) w).world)
    → ((ref : ObjectRef) (w : World) → P w → P (env.k.call (read ref) w).world)
    → ((w : World) → P w → P (env.k.reset_mapper w))
    → (x : Obj) (replaced hook : Bool) (a : ApplyUtil Obj World) → P a.world
    → P (apply_object env x replaced hook a).world
apply_object-dry {Obj} {World} env P d p u r g m x replaced hook a h =
    Reach-keeps env.k P step m (apply_object-Permitted env x replaced hook a) h
  where
    dry : is_dry env ≡ true
    dry = ground (arith, d)

    step : (q : Request Obj) (w : World) → Permitted env q → P w → P (env.k.call q w).world
    step (patch b forced y) w e i =
        subst (λ c. P (env.k.call (patch c forced y) w).world) (sym (e ∙ dry)) (p y forced w i)
    step (update b y) w (e, _) i =
        subst (λ c. P (env.k.call (update c y) w).world) (sym (e ∙ dry)) (u y w i)
    step (remove b ref) w (e, _) i =
        subst (λ c. P (env.k.call (remove c ref) w).world) (sym (e ∙ dry)) (r ref w i)
    step (read ref) w e i = g ref w i
