-- ===== src/Deployment/Apply/Parallel.antt =====
-- `ApplyDeployments` of pkg/deployment/utils/apply_utils.go: its loop, the goroutines of the items, the
-- semaphore and the barriers, as a step relation. A step is one action of the loop or of a goroutine.
pub mod Bounds
pub mod Barriers
pub mod Progress
use kluctl.Prelude.{ℕ, suc, ◌<◌, ◌≡◌, Bool, true, false, ◌||◌, List, [], ◌∷◌, ◌++◌, if◌then◌else◌}

-- Where the loop is: at its head, in `sem.Acquire`, behind it, at `wg.Wait` of a barrier, at the last
-- `wg.Wait`, or behind it.
pub data Phase (Item : Type 0) : Type 0 where
  looping : List Item → Phase Item
  acquiring : Item → List Item → Phase Item
  starting : Item → List Item → Phase Item
  waiting : List Item → Phase Item
  finishing : Phase Item
  finished : Phase Item

-- The loop, how much of the semaphore is acquired, the goroutines that are in `applyDeploymentItem`,
-- those for which it has returned, those that have released the semaphore and have not called `wg.Done`
-- yet, the items that were started, the last one first, and the state that the goroutines share.
pub record Run (Item Shared : Type 0) : Type 0 where
  pub phase : Phase Item
  pub acquired : ℕ
  pub applying : List Item
  pub returned : List Item
  pub released : List Item
  pub started : List Item
  pub shared : Shared

-- `semaphore.NewWeighted(8)`
abbrev pub max_parallel : ℕ
max_parallel = 8

-- What a deployment item tells the loop, the abort signal of the shared state, the actions of
-- `applyDeploymentItem` on it, each of which is one change, and when it has come to its end, which it
-- need not.
pub record Work (Item Shared : Type 0) : Type 1 where
  pub config_barrier : Item → Bool
  pub barrier : Item → Bool
  pub abort_signal : Shared → Bool
  pub Acts : Item → Shared → Shared → Type 0
  pub Returns : Item → Shared → Type 0

module _ {Item Shared : Type 0} where
  abbrev pub run :
      Phase Item → ℕ → List Item → List Item → List Item → List Item → Shared → Run Item Shared
  run p n js hs rs ss x = record {
    phase = p;
    acquired = n;
    applying = js;
    returned = hs;
    released = rs;
    started = ss;
    shared = x;
  }

module _ {Item Shared : Type 0} (work : Work Item Shared) where
  open work use {config_barrier, barrier, abort_signal, Acts, Returns}

  unfoldable pub is_barrier : Item → Bool
  is_barrier d = config_barrier d || barrier d

  -- Where the loop is after it has started an item.
  unfoldable pub after_start : Item → List Item → Phase Item
  unfolding is_barrier
  after_start d ds = if is_barrier d then waiting ds else looping ds

  pub data Step : Run Item Shared → Run Item Shared → Type 0 where
    -- `if a.abortSignal.Load().(bool) { break }`
    break_loop :
        {d : Item} {ds js hs rs ss : List Item} {n : ℕ} {x : Shared}
        → abort_signal x ≡ true
        → Step (run (looping (d ∷ ds)) n js hs rs ss x) (run finishing n js hs rs ss x)
    next_item :
        {d : Item} {ds js hs rs ss : List Item} {n : ℕ} {x : Shared}
        → abort_signal x ≡ false
        → Step (run (looping (d ∷ ds)) n js hs rs ss x) (run (acquiring d ds) n js hs rs ss x)
    end_loop :
        {js hs rs ss : List Item} {n : ℕ} {x : Shared}
        → Step (run (looping []) n js hs rs ss x) (run finishing n js hs rs ss x)
    -- `sem.Acquire`, which waits until something is left
    acquire :
        {d : Item} {ds js hs rs ss : List Item} {n : ℕ} {x : Shared}
        → n < max_parallel
        → Step (run (acquiring d ds) n js hs rs ss x) (run (starting d ds) (suc n) js hs rs ss x)
    -- `wg.Add(1)` and the start of the goroutine
    start :
        {d : Item} {ds js hs rs ss : List Item} {n : ℕ} {x : Shared}
        → Step
            (run (starting d ds) n js hs rs ss x)
            (run (after_start d ds) n (d ∷ js) hs rs (d ∷ ss) x)
    -- `wg.Wait()` of a barrier
    pass_barrier :
        {ds ss : List Item} {n : ℕ} {x : Shared}
        → Step (run (waiting ds) n [] [] [] ss x) (run (looping ds) n [] [] [] ss x)
    act :
        {p : Phase Item} {d : Item} (js js' : List Item) {hs rs ss : List Item} {n : ℕ}
        {x y : Shared}
        → Acts d x y
        → Step (run p n (js ++ d ∷ js') hs rs ss x) (run p n (js ++ d ∷ js') hs rs ss y)
    -- `applyDeploymentItem` returns
    return_item :
        {p : Phase Item} (d : Item) (js js' : List Item) {hs rs ss : List Item} {n : ℕ} {x : Shared}
        → Returns d x
        → Step (run p n (js ++ d ∷ js') hs rs ss x) (run p n (js ++ js') (d ∷ hs) rs ss x)
    -- the deferred `sem.Release(1)`, which panics if nothing is acquired
    release :
        {p : Phase Item} (d : Item) {js : List Item} (hs hs' : List Item) {rs ss : List Item}
        {n : ℕ} {x : Shared}
        → Step (run p (suc n) js (hs ++ d ∷ hs') rs ss x) (run p n js (hs ++ hs') (d ∷ rs) ss x)
    -- the deferred `wg.Done()`
    done :
        {p : Phase Item} (d : Item) {js hs : List Item} (rs rs' : List Item) {ss : List Item}
        {n : ℕ} {x : Shared}
        → Step (run p n js hs (rs ++ d ∷ rs') ss x) (run p n js hs (rs ++ rs') ss x)
    finish :
        {ss : List Item} {n : ℕ} {x : Shared}
        → Step (run finishing n [] [] [] ss x) (run finished n [] [] [] ss x)

  -- The start of `ApplyDeployments`.
  abbrev pub begin : List Item → Shared → Run Item Shared
  begin ds x = run (looping ds) 0 [] [] [] [] x

  pub data Reach (ds : List Item) (x : Shared) : Run Item Shared → Type 0 where
    begun : Reach ds x (begin ds x)
    stepped : {r s : Run Item Shared} → Reach ds x r → Step r s → Reach ds x s
