-- ===== src/Deployment/Apply/Parallel/Progress.antt =====
-- What `ApplyDeployments` of pkg/deployment/utils/apply_utils.go can wait for.
use kluctl.Prelude.{
  ℕ, suc, ◌+◌, ◌*◌, ◌<◌, ◌≡◌, refl, subst, ◌⊎◌, inl, inr, Bool, true, false, List, [], ◌∷◌, In,
  here, length, if◌then◌else◌, arith,
}
use kluctl.Deployment.Apply.Parallel.{
  Phase, looping, acquiring, starting, waiting, finishing, finished, Run, Work, run, is_barrier,
  after_start, Step, break_loop, next_item, end_loop, acquire, start, pass_barrier, release, done,
  finish, Reach,
}
use kluctl.Deployment.Apply.Parallel.Bounds.{held_by_loop, Balanced, Reach-Balanced}

module _ {Item Shared : Type 0} (work : Work Item Shared) where
  unfoldable pub left_in : Phase Item → ℕ
  left_in (looping ds) = 8 * length ds + 3
  left_in (acquiring d ds) = 8 * length ds + 10
  left_in (starting d ds) = 8 * length ds + 9
  left_in (waiting ds) = 8 * length ds + 4
  left_in finishing = 2
  left_in finished = 1

  -- The steps that are left, without the actions of the items.
  unfoldable pub steps_left : Run Item Shared → ℕ
  unfolding left_in
  steps_left r = left_in r.phase + 3 * length r.applying + 2 * length r.returned + length r.released

  left-after_start :
      (d : Item) (ds : List Item) (b : Bool)
      → left_in (if b then waiting ds else looping ds) < 8 * length ds + 6
  unfolding left_in
  left-after_start d ds true = omega arith
  left-after_start d ds false = omega arith

  -- A step that brings the run closer to its end.
  unfoldable pub Closer : Run Item Shared → Type 0
  Closer r = (s : Run Item Shared) × Step work r s × (steps_left s < steps_left r)

  module _ (x : Shared) (ss : List Item) where
    -- A goroutine whose item has returned goes on.
    returned-Closer :
        (p : Phase Item) (n : ℕ) (h : Item) (hs rs : List Item)
        → held_by_loop work p ≡ 0
        → n ≡ held_by_loop work p + length (h ∷ hs)
        → Closer (run p n [] (h ∷ hs) rs ss x)
    unfolding Closer steps_left
    returned-Closer p n h hs rs none e =
        let same : suc (length hs) ≡ n = omega arith in
        subst (λ i. Closer (run p i [] (h ∷ hs) rs ss x)) same
          (run p (length hs) [] hs (h ∷ rs) ss x, release h [] hs, omega arith)

    -- A wait for the goroutines ends.
    waiting-Closer :
        (p : Phase Item) (n : ℕ) (hs rs : List Item)
        → held_by_loop work p ≡ 0
        → n ≡ held_by_loop work p + length hs
        → Closer (run p n [] [] [] ss x)
        → Closer (run p n [] hs rs ss x)
    unfolding Closer steps_left
    waiting-Closer p n (h ∷ hs) rs none e c = returned-Closer p n h hs rs none e
    waiting-Closer p n [] (d ∷ rs) none e c = (run p n [] [] rs ss x, done d [] rs, omega arith)
    waiting-Closer p n [] [] none e c = c

    looping-Closer :
        (d : Item) (ds : List Item) (n : ℕ) (hs rs : List Item) (b : Bool)
        → work.abort_signal x ≡ b
        → Closer (run (looping (d ∷ ds)) n [] hs rs ss x)
    unfolding Closer steps_left left_in
    looping-Closer d ds n hs rs true e = (run finishing n [] hs rs ss x, break_loop e, omega arith)
    looping-Closer d ds n hs rs false e =
        (run (acquiring d ds) n [] hs rs ss x, next_item e, omega arith)

    -- The semaphore is free if no goroutine holds it.
    acquiring-Closer :
        (d : Item) (ds : List Item) (n : ℕ) (hs rs : List Item)
        → n ≡ length hs
        → Closer (run (acquiring d ds) n [] hs rs ss x)
    unfolding Closer steps_left left_in held_by_loop
    acquiring-Closer d ds n [] rs e =
        (run (starting d ds) (suc n) [] [] rs ss x, acquire (omega arith), omega arith)
    acquiring-Closer d ds n (h ∷ hs) rs e =
        returned-Closer (acquiring d ds) n h hs rs refl (omega arith)

    idle-Closer :
        (p : Phase Item) (n : ℕ) (hs rs : List Item)
        → n ≡ held_by_loop work p + length hs
        → (p ≡ finished) ⊎ Closer (run p n [] hs rs ss x)
    unfolding Closer steps_left left_in held_by_loop after_start
    idle-Closer (looping []) n hs rs e = inr (run finishing n [] hs rs ss x, end_loop, omega arith)
    idle-Closer (looping (d ∷ ds)) n hs rs e =
        inr (looping-Closer d ds n hs rs (work.abort_signal x) refl)
    idle-Closer (acquiring d ds) n hs rs e = inr (acquiring-Closer d ds n hs rs (omega arith))
    idle-Closer (starting d ds) n hs rs e = inr (
      run (after_start work d ds) n (d ∷ []) hs rs (d ∷ ss) x,
      start,
      omega (arith, left-after_start d ds (is_barrier work d)),
    )
    idle-Closer (waiting ds) n hs rs e = inr (
        waiting-Closer (waiting ds) n hs rs refl e
          (run (looping ds) n [] [] [] ss x, pass_barrier, omega arith))
    idle-Closer finishing n hs rs e = inr (
        waiting-Closer finishing n hs rs refl e (run finished n [] [] [] ss x, finish, omega arith))
    idle-Closer finished n hs rs e = inl refl

  applying-Closer :
      (p : Phase Item) (n : ℕ) (js hs rs ss : List Item) (x : Shared)
      → n ≡ held_by_loop work p + length js + length hs
      → (p ≡ finished) ⊎ (((d : Item) × In d js) ⊎ Closer (run p n js hs rs ss x))
  applying-Closer p n (d ∷ js) hs rs ss x e = inr (inl (d, here))
  applying-Closer p n [] hs rs ss x e = elim (idle-Closer x ss p n hs rs (omega arith)) [
    | inl over ↦ inl over
    | inr closer ↦ inr (inr closer)
  ]

-- In every state that ApplyDeployments reaches, its loop has ended, or an item is still being
-- applied, or a step is possible after which fewer steps are left: it waits for nothing but items
-- that are being applied.
pub Reach-Closer :
    {Item Shared : Type 0} (work : Work Item Shared) (ds : List Item) (x : Shared)
    (r : Run Item Shared)
    → Reach work ds x r
    → (r.phase ≡ finished) ⊎ (((d : Item) × In d r.applying) ⊎ Closer work r)
unfolding Balanced
Reach-Closer work ds x r a =
    applying-Closer work r.phase r.acquired r.applying r.returned r.released r.started r.shared
      (Reach-Balanced work ds x r a).0
