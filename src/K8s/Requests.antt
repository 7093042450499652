-- ===== src/K8s/Requests.antt =====
-- Which requests the methods of pkg/k8s/k8s_cluster.go send: the worlds that they reach.
use kluctl.Prelude.{
  ℕ, zero, suc, ◌≡◌, refl, Bool, ◌||◌, ◌&&◌, not, Option, none, some, Bool-cases, inl, inr,
}
use kluctl.Types.ObjectRef.{ObjectRef}
use kluctl.K8s.{
  Request, patch, update, remove, read, Answer, K8sCluster, ApiError, outcome, polled, is_not_found,
  apply_object, update_object, get_single_object, wait_for_deleted_object, after_delete,
  delete_single_object,
}

module _ {Obj World : Type 0} (k : K8sCluster Obj World) (Allowed : Request Obj → Type 0) where
  open k use {dry_run, call, reset_mapper, deletion_polls}

  -- A world is reached from another by requests that are all allowed.
  pub data Reach (v : World) : World → Type 0 where
    stay : Reach v v
    sent : {w : World} (r : Request Obj) → Allowed r → Reach v w → Reach v (call r w).world
    reset : {w : World} → Reach v w → Reach v (reset_mapper w)

pub world-outcome :
    {Obj World : Type 0} (r : Answer Obj World) (e : Option ApiError)
    → (outcome r e).world ≡ r.world
world-outcome r none = refl
world-outcome r (some e) = refl

module _ {Obj World : Type 0} (k : K8sCluster Obj World) {Allowed : Request Obj → Type 0} where
  open k use {dry_run, call, reset_mapper, deletion_polls}

  pub Reach-trans :
      {u v w : World} → Reach k Allowed u v → Reach k Allowed v w → Reach k Allowed u w
  Reach-trans a stay = a
  Reach-trans a (sent r p b) = sent r p (Reach-trans a b)
  Reach-trans a (reset b) = reset (Reach-trans a b)

  -- What every allowed request keeps, a history of them keeps.
  pub Reach-keeps {ℓ} :
      (P : World → Type ℓ)
      → ((r : Request Obj) (w : World) → Allowed r → P w → P (call r w).world)
      → ((w : World) → P w → P (reset_mapper w))
      → {v w : World} → Reach k Allowed v w
      → P v
      → P w
  Reach-keeps P step again stay h = h
  Reach-keeps P step again (sent {w} r p a) h = step r w p (Reach-keeps P step again a h)
  Reach-keeps P step again (reset {w} a) h = again w (Reach-keeps P step again a h)

  pub apply_object-Reach :
      (force_dry_run force_apply : Bool) (o : Obj) (w : World)
      → Allowed (patch (dry_run || force_dry_run) force_apply o)
      → Reach k Allowed w (apply_object k force_dry_run force_apply o w).world
  unfolding apply_object
  apply_object-Reach d f o w p = rw world-outcome (sent _ p stay)

  pub update_object-Reach :
      (force_dry_run : Bool) (o : Obj) (w : World)
      → Allowed (update (dry_run || force_dry_run) o)
      → Reach k Allowed w (update_object k force_dry_run o w).world
  unfolding update_object
  update_object-Reach d o w p = rw world-outcome (sent _ p stay)

  pub get_single_object-Reach :
      (ref : ObjectRef) (w : World)
      → Allowed (read ref)
      → Reach k Allowed w (get_single_object k ref w).world
  unfolding get_single_object
  get_single_object-Reach ref w p = rw world-outcome (sent _ p stay)

  polled-Reach :
      (e : Option ApiError) (v w : World) (again : World → Option ApiError × World)
      → Reach k Allowed v w
      → Reach k Allowed v (again w).1
      → Reach k Allowed v (polled e w again).1
  polled-Reach none v w again a b = b
  polled-Reach (some e) v w again a b = elim (Bool-cases (is_not_found e)) [
    | inl gone ↦ rw gone a
    | inr failed ↦ rw failed a
  ]

  wait-Reach :
      (ref : ObjectRef) (polls : ℕ) (w : World)
      → Allowed (read ref)
      → Reach k Allowed w (wait_for_deleted_object k ref polls w).1
  unfolding wait_for_deleted_object
  wait-Reach ref zero w p = stay
  wait-Reach ref (suc polls) w p =
      let a = get_single_object-Reach ref w p in
      let r = get_single_object k ref w in
      polled-Reach r.error w r.world (λ v. wait_for_deleted_object k ref polls v) a
        (Reach-trans a (wait-Reach ref polls r.world p))

  after_delete-Reach :
      (dry no_wait ignore : Bool) (ref : ObjectRef) (r : Answer Obj World) (e : Option ApiError)
      (w : World)
      → Allowed (read ref)
      → Reach k Allowed w r.world
      → Reach k Allowed w (after_delete k dry no_wait ignore ref r e).world
  unfolding after_delete
  after_delete-Reach dry no_wait ignore ref r (some e) w p a =
      elim (Bool-cases (ignore && is_not_found e)) [ inl t ↦ rw t a | inr f ↦ rw f a ]
  after_delete-Reach dry no_wait ignore ref r none w p a =
      elim (Bool-cases (not dry && not no_wait)) [
        | inl t ↦ rw t (Reach-trans a (wait-Reach ref (deletion_polls ref) r.world p))
        | inr f ↦ rw f a
      ]

  -- A deletion sends its own request, and polls for the object.
  pub delete_single_object-Reach :
      (force_dry_run no_wait ignore : Bool) (ref : ObjectRef) (w : World)
      → Allowed (remove (dry_run || force_dry_run) ref)
      → Allowed (read ref)
      → Reach k Allowed w (delete_single_object k force_dry_run no_wait ignore ref w).world
  unfolding delete_single_object
  delete_single_object-Reach d n i ref w p q =
      let r = call (remove (dry_run || d) ref) w in
      after_delete-Reach (dry_run || d) n i ref r r.error w q (sent _ p stay)
