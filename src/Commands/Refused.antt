-- ===== src/Commands/Refused.antt =====
-- A refused confirmation, in pkg/deployment/commands.
use text.Mathlib.Text.{◌==◌ as str_eq}
use kluctl.Prelude.{
  String, ◌≡◌, ◌≢◌, refl, subst, Bool, true, false, Option, some, List, [], Result, ok, err,
  panicked, ◌>>=◌, >>=-eq-ok, if◌then◌else◌,
}
use kluctl.Types.ObjectRef.{ObjectRef}
use kluctl.Utils.Inclusion.{Inclusion, has_type}
use kluctl.Deployment.Delete.{find_objects_for_delete}
use kluctl.Deployment.Remote.{RemoteObjectUtils, get_filtered_remote_objects}
use kluctl.Commands.{
  Surroundings, TargetContext, or_error, confirmed, discriminator_of, inclusion_of,
  find_orphan_objects, gather, finish, plan_prune, run_prune, plan_delete, run_delete,
}

module _ {Obj World : Type 0} (env : Surroundings Obj World)
    (confirm : List ObjectRef → Option String)
    (refused : (refs : List ObjectRef) → (e : String) × (confirm refs ≡ some e)) where
  abbrev Plan : Type 0
  Plan = List ObjectRef × RemoteObjectUtils Obj

  finish-world :
      (do_wait : Bool) (r : Result Plan) (w : World)
      → ((p : Plan) → r ≢ ok p)
      → (finish env do_wait r w).1 ≡ w
  finish-world do_wait (ok p) w h = absurd (h p refl)
  finish-world do_wait (err e) w h = refl
  finish-world do_wait panicked w h = refl

  refused-ok :
      (find : RemoteObjectUtils Obj → Result (List ObjectRef)) (d : String) (w : World) (p : Plan)
      → (gather env d w >>= λ u. find u >>= λ l. confirmed (some confirm) l u) ≢ ok p
  refused-ok find d w p h =
      let (u, _, h') = >>=-eq-ok (gather env d w) _ h in
      let (l, _, h'') = >>=-eq-ok (find u) _ h' in
      let (e, answer) = refused l in
      let q : err e ≡ ok p = subst (λ a. or_error {A = Plan} (a, (l, u)) ≡ ok p) answer h'' in cc

  if-never :
      (b : Bool) (e : String) (r : Result Plan)
      → ((p : Plan) → r ≢ ok p)
      → (p : Plan) → (if b then err e else r) ≢ ok p
  if-never true e r h p q = cc
  if-never false e r h p q = h p q

  -- If the confirmation is always refused, a prune and a deletion with a target leave the cluster
  -- as it is.
  pub run_refused :
      (discriminator : String) (inclusion : Option Inclusion) (t : TargetContext) (do_wait : Bool)
      (w : World)
      → ((run_prune env discriminator (some confirm) (some t) do_wait w).1 ≡ w)
        × ((run_delete env discriminator inclusion (some confirm) (some t) do_wait w).1 ≡ w)
  unfolding run_prune plan_prune run_delete plan_delete
  run_refused discriminator inclusion t do_wait w =
      let d = discriminator_of discriminator (some t) in
      let inc = inclusion_of inclusion (some t) in
      let find : RemoteObjectUtils Obj → Result (List ObjectRef) = λ u.
        find_objects_for_delete env.objects env.is_namespaced env.discovery
          (get_filtered_remote_objects (env.remote w) inc u) (has_type inc "tags") [] in
      (
        finish-world do_wait (plan_prune env discriminator (some confirm) (some t) w) w
            (if-never (str_eq d "") _ _ (refused-ok (find_orphan_objects env t w) d w)),
        finish-world do_wait (plan_delete env discriminator inclusion (some confirm) (some t) w) w
            (if-never (str_eq d "") _ _ (refused-ok find d w)),
      )
