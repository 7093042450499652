-- ===== src/Deployment/Remote/Keyed.antt =====
-- Under which references pkg/deployment/utils/remote_objects_utils.go keeps the objects.
use kluctl.Prelude.{
  String, ◌≡◌, refl, Bool, true, false, Option, List, [], ◌∷◌, All, Map, insert, if◌then◌else◌,
  ◌==◌,
}
use kluctl.Types.ObjectRef.{ObjectRef, ref_eq}
use kluctl.Deployment.Remote.{Remote, RemoteObjectUtils, put_object, update_remote_objects}
use kluctl.Deployment.Remote.Stable.{Stable, update_remote_objects-kept}

-- Every object stands under its own reference.
unfoldable pub Keyed : {Obj : Type 0} → Remote Obj → RemoteObjectUtils Obj → Type 0
Keyed k u = All (λ e. k.ref_of e.1 ≡ e.0) u.remote_objects

module _ {Obj : Type 0} (k : Remote Obj) where
  if-All :
      (P : ObjectRef × Obj → Type 0) (b : Bool) (m n : Map ObjectRef Obj)
      → All P m
      → All P n
      → All P (if b then m else n)
  if-All P true m n h i = h
  if-All P false m n h i = i

  insert-All :
      (P : ObjectRef × Obj → Type 0) (ref : ObjectRef) (o : Obj) (m : Map ObjectRef Obj)
      → P (ref, o)
      → All P m
      → All P (insert ref o m)
  unfolding insert
  insert-All P ref o [] p h = (p, h)
  insert-All P ref o ((j, old) ∷ m) p h =
      if-All P (j == ref) _ _ (p, h.1) (h.0, insert-All P ref o m p h.1)

  Keyed-Stable : Stable k (Keyed k)
  unfolding Keyed put_object
  Keyed-Stable = record {
    put = λ o u h. insert-All (λ e. k.ref_of e.1 ≡ e.0) (k.ref_of o) o u.remote_objects refl h;
    warn_api = λ ref ws u h. h;
    warn = λ ref message u h. h;
    fail = λ ref message u h. h;
    name = λ m u h. h;
  }

-- UpdateRemoteObjects, with and without an error, keeps every remote object under its own
-- reference.
pub update_remote_objects-Keyed :
    {Obj : Type 0} (k : Remote Obj) (discriminator : Option String) (refs : List ObjectRef)
    (only_used_gks : Bool) (u : RemoteObjectUtils Obj)
    → Keyed k u
    → Keyed k (update_remote_objects k discriminator refs only_used_gks u).1
update_remote_objects-Keyed k discriminator refs only_used_gks u h =
    update_remote_objects-kept (Keyed-Stable k) discriminator refs only_used_gks u h
