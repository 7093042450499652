-- ===== src/Deployment/Apply/Parallel/Barriers.antt =====
-- In which order `ApplyDeployments` of pkg/deployment/utils/apply_utils.go starts the items.
use kluctl.Prelude.{
  ◌≡◌, ◌≢◌, refl, ◌⊎◌, inl, inr, Bool, true, false, List, [], ◌∷◌, ◌++◌, if◌then◌else◌,
}
use kluctl.Deployment.Apply.Parallel.{
  Phase, looping, acquiring, starting, waiting, finishing, finished, Run, Work, is_barrier,
  after_start, Step, break_loop, next_item, end_loop, acquire, start, pass_barrier, act,
  return_item, release, done, finish, Reach, begun, stepped,
}

-- The started items, in their order, before others.
unfoldable pub rev_onto : {Item : Type 0} → List Item → List Item → List Item
rev_onto [] ds = ds
rev_onto (s ∷ ss) ds = rev_onto ss (s ∷ ds)

module _ {Item Shared : Type 0} (work : Work Item Shared) where
  -- If the last item that was started is a barrier, no goroutine is left.
  unfoldable pub Quiet : List Item → List Item → List Item → List Item → Type 0
  Quiet [] js hs rs = Unit
  Quiet (p ∷ ss) js hs rs = (is_barrier work p ≡ false) ⊎ ((js ≡ []) × (hs ≡ []) × (rs ≡ []))

  -- The items that were started are the first of the given ones. Where the loop may start the next
  -- one, the barrier before it has been passed.
  unfoldable pub InOrder :
      List Item → Phase Item → List Item → List Item → List Item → List Item → Type 0
  InOrder ds (looping rest) js hs rs ss = (rev_onto ss rest ≡ ds) × Quiet ss js hs rs
  InOrder ds (acquiring d rest) js hs rs ss = (rev_onto ss (d ∷ rest) ≡ ds) × Quiet ss js hs rs
  InOrder ds (starting d rest) js hs rs ss = (rev_onto ss (d ∷ rest) ≡ ds) × Quiet ss js hs rs
  InOrder ds (waiting rest) js hs rs ss = rev_onto ss rest ≡ ds
  InOrder ds finishing js hs rs ss = (rest : List Item) × (rev_onto ss rest ≡ ds)
  InOrder ds finished js hs rs ss = (rest : List Item) × (rev_onto ss rest ≡ ds)

  append-ne_nil : (xs : List Item) (x : Item) (ys : List Item) → xs ++ x ∷ ys ≢ []
  append-ne_nil [] x ys h = cc
  append-ne_nil (y ∷ xs) x ys h = cc

  -- Where a goroutine is left, the last item is no barrier.
  Quiet-busy :
      (ss js hs rs us vs ws : List Item)
      → ((js ≡ []) × (hs ≡ []) × (rs ≡ []) → ⊥)
      → Quiet ss js hs rs
      → Quiet ss us vs ws
  unfolding Quiet
  Quiet-busy [] js hs rs us vs ws busy q = tt
  Quiet-busy (p ∷ ss) js hs rs us vs ws busy (inl e) = inl e
  Quiet-busy (p ∷ ss) js hs rs us vs ws busy (inr e) = absurd (busy e)

  Quiet-nothing : (ss : List Item) → Quiet ss [] [] []
  unfolding Quiet
  Quiet-nothing [] = tt
  Quiet-nothing (p ∷ ss) = inr (refl, refl, refl)

  -- A step of a goroutine keeps the order in every phase.
  InOrder-goroutine :
      (ds : List Item) (p : Phase Item) (js hs rs us vs ws ss : List Item)
      → ((js ≡ []) × (hs ≡ []) × (rs ≡ []) → ⊥)
      → InOrder ds p js hs rs ss
      → InOrder ds p us vs ws ss
  unfolding InOrder
  InOrder-goroutine ds (looping rest) js hs rs us vs ws ss f (e, q) =
      (e, Quiet-busy ss js hs rs us vs ws f q)
  InOrder-goroutine ds (acquiring d rest) js hs rs us vs ws ss f (e, q) =
      (e, Quiet-busy ss js hs rs us vs ws f q)
  InOrder-goroutine ds (starting d rest) js hs rs us vs ws ss f (e, q) =
      (e, Quiet-busy ss js hs rs us vs ws f q)
  InOrder-goroutine ds (waiting rest) js hs rs us vs ws ss f e = e
  InOrder-goroutine ds finishing js hs rs us vs ws ss f e = e
  InOrder-goroutine ds finished js hs rs us vs ws ss f e = e

  InOrder-started :
      (ds rest : List Item) (d : Item) (js hs rs ss : List Item) (b : Bool)
      → is_barrier work d ≡ b
      → rev_onto ss (d ∷ rest) ≡ ds
      → InOrder ds (if b then waiting rest else looping rest) (d ∷ js) hs rs (d ∷ ss)
  unfolding InOrder Quiet rev_onto
  InOrder-started ds rest d js hs rs ss true e h = h
  InOrder-started ds rest d js hs rs ss false e h = (h, inl e)

  Step-InOrder :
      {r s : Run Item Shared} (ds : List Item)
      → Step work r s
      → InOrder ds r.phase r.applying r.returned r.released r.started
      → InOrder ds s.phase s.applying s.returned s.released s.started
  unfolding InOrder after_start
  Step-InOrder ds (break_loop a) (e, q) = (_, e)
  Step-InOrder ds (next_item a) h = h
  Step-InOrder ds end_loop (e, q) = (_, e)
  Step-InOrder ds (acquire a) h = h
  Step-InOrder ds (start {d = d} {ds = rest} {js = js} {hs = hs} {rs = rs} {ss = ss}) (e, q) =
      InOrder-started ds rest d js hs rs ss (is_barrier work d) refl e
  Step-InOrder ds (pass_barrier {ds = rest} {ss = ss}) e = (e, Quiet-nothing ss)
  Step-InOrder ds (act js js' a) h = h
  Step-InOrder ds (return_item {p = p} d js js' {hs = hs} {rs = rs} {ss = ss} a) h =
      InOrder-goroutine ds p _ hs rs _ _ _ ss (λ e. append-ne_nil js d js' e.0) h
  Step-InOrder ds (release {p = p} d {js = js} hs hs' {rs = rs} {ss = ss}) h =
      InOrder-goroutine ds p js _ rs _ _ _ ss (λ e. append-ne_nil hs d hs' e.1) h
  Step-InOrder ds (done {p = p} d {js = js} {hs = hs} rs rs' {ss = ss}) h =
      InOrder-goroutine ds p js hs _ _ _ _ ss (λ e. append-ne_nil rs d rs' e.2) h
  Step-InOrder ds finish h = h

-- In every interleaving of ApplyDeployments, the items that were started are the first of the
-- given ones in their order; and where the loop may start the next item, either the item before it
-- is no barrier or no goroutine is left of all the items before.
pub Reach-InOrder :
    {Item Shared : Type 0} (work : Work Item Shared) (ds : List Item) (x : Shared)
    (r : Run Item Shared)
    → Reach work ds x r
    → InOrder work ds r.phase r.applying r.returned r.released r.started
unfolding InOrder Quiet rev_onto
Reach-InOrder work ds x _ begun = (refl, tt)
Reach-InOrder work ds x _ (stepped {r} a b) = Step-InOrder work ds b (Reach-InOrder work ds x r a)
