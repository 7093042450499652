-- ===== src/Deployment/Apply/Item/Abort.antt =====
-- pkg/deployment/utils/apply_utils.go: what the abort signal stops.
use kluctl.Prelude.{◌≡◌, refl, Bool, true, List, [], ◌∷◌, ◌++◌, Bool-cases, inl, inr, arith}
use kluctl.K8s.Resources.{Discovery}
use kluctl.Deployment.Apply.{Env, ApplyUtil}
use kluctl.Deployment.Apply.Hooks.{Texts}
use kluctl.Deployment.Apply.Item.{apply_objects, apply_and_wait}

module _ {Obj World : Type 0} (env : Env Obj World) (t : Texts) (d : Discovery) where
  aborted :
      (wait : Bool) (xs : List Obj) (a : ApplyUtil Obj World)
      → a.abort_signal ≡ true
      → apply_objects env t d wait xs a ≡ a
  unfolding apply_objects
  aborted wait [] a h = refl
  aborted wait (x ∷ xs) a h = ground (arith, h)

-- Once the abort signal is set while the objects of an item are applied, nothing is done for the
-- objects after that: the state stays as it is, whatever objects follow.
pub apply_objects-abort :
    {Obj World : Type 0} (env : Env Obj World) (t : Texts) (d : Discovery) (wait : Bool)
    (xs ys : List Obj) (a : ApplyUtil Obj World)
    → (apply_objects env t d wait xs a).abort_signal ≡ true
    → apply_objects env t d wait (xs ++ ys) a ≡ apply_objects env t d wait xs a
unfolding apply_objects
apply_objects-abort env t d wait [] ys a h = aborted env t d wait ys a h
apply_objects-abort env t d wait (x ∷ xs) ys a h = elim (Bool-cases a.abort_signal) [
  | inl stop ↦ ground (arith, stop)
  | inr go ↦
      let i = apply_objects-abort env t d wait xs ys (apply_and_wait env t d wait x a) in
      ground (arith, go, h, i)
]
