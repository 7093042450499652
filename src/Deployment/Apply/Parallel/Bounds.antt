-- ===== src/Deployment/Apply/Parallel/Bounds.antt =====
-- How many items `ApplyDeployments` of pkg/deployment/utils/apply_utils.go applies at once.
use kluctl.Prelude.{
  ℕ, ◌+◌, ◌≤◌, ◌≡◌, refl, Bool, true, false, List, ◌∷◌, length, length-append, arith, if◌then◌else◌,
}
use kluctl.Deployment.Apply.Parallel.{
  Phase, looping, starting, waiting, Run, Work, max_parallel, is_barrier, after_start, Step,
  break_loop, next_item, end_loop, acquire, start, pass_barrier, act, return_item, release, done,
  finish, Reach, begun, stepped,
}

module _ {Item Shared : Type 0} (work : Work Item Shared) where
  -- What the loop itself has acquired.
  unfoldable pub held_by_loop : Phase Item → ℕ
  held_by_loop (starting d ds) = 1
  held_by_loop _ = 0

  held_by_loop-after_start :
      (d : Item) (ds : List Item) (b : Bool)
      → held_by_loop (if b then waiting ds else looping ds) ≡ 0
  unfolding held_by_loop
  held_by_loop-after_start d ds true = refl
  held_by_loop-after_start d ds false = refl

  -- The semaphore is acquired by the loop and by the goroutines that have not released it.
  unfoldable pub Balanced : Run Item Shared → Type 0
  Balanced r =
      (r.acquired ≡ held_by_loop r.phase + length r.applying + length r.returned)
      × (r.acquired ≤ max_parallel)

  Step-Balanced : {r s : Run Item Shared} → Step work r s → Balanced r → Balanced s
  unfolding Balanced held_by_loop after_start
  Step-Balanced (break_loop a) (e, h) = (e, h)
  Step-Balanced (next_item a) (e, h) = (e, h)
  Step-Balanced end_loop (e, h) = (e, h)
  Step-Balanced (acquire a) (e, h) = (omega arith, omega arith)
  Step-Balanced (start {d = d} {ds = ds}) (e, h) =
      (omega (arith, held_by_loop-after_start d ds (is_barrier work d)), h)
  Step-Balanced pass_barrier (e, h) = (e, h)
  Step-Balanced (act js js' a) (e, h) = (e, h)
  Step-Balanced (return_item d js js' a) (e, h) =
      (omega (arith, length-append js (d ∷ js'), length-append js js'), h)
  Step-Balanced (release d hs hs') (e, h) =
      (omega (arith, length-append hs (d ∷ hs'), length-append hs hs'), omega arith)
  Step-Balanced (done d rs rs') (e, h) = (e, h)
  Step-Balanced finish (e, h) = (e, h)

  pub Reach-Balanced :
      (ds : List Item) (x : Shared) (r : Run Item Shared) → Reach work ds x r → Balanced r
  unfolding Balanced held_by_loop
  Reach-Balanced ds x _ begun = (refl, omega arith)
  Reach-Balanced ds x _ (stepped {r} a b) = Step-Balanced b (Reach-Balanced ds x r a)

-- In every interleaving of ApplyDeployments, at most eight goroutines are in applyDeploymentItem
-- at once.
pub Reach-length :
    {Item Shared : Type 0} (work : Work Item Shared) (ds : List Item) (x : Shared)
    (r : Run Item Shared)
    → Reach work ds x r
    → length r.applying ≤ 8
unfolding Balanced
Reach-length work ds x r a = let (e, h) = Reach-Balanced work ds x r a in omega arith
