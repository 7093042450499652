-- ===== src/Tests/Parallel.antt =====
-- Runs of the theorems on `ApplyDeployments` of pkg/deployment/utils/apply_utils.go.
use kluctl.Prelude.{ℕ, ◌≤◌, ◌≡◌, ◌⊎◌, refl, false, List, [], ◌∷◌, In, length, nat_beq, arith}
use kluctl.Deployment.Apply.Parallel.{
  waiting, finished, Run, Work, run, after_start, next_item, acquire, start, return_item, Step,
  Reach, begun, stepped,
}
use kluctl.Deployment.Apply.Parallel.Bounds.{Reach-length}
use kluctl.Deployment.Apply.Parallel.Barriers.{InOrder, Reach-InOrder}
use kluctl.Deployment.Apply.Parallel.Progress.{Closer, Reach-Closer}

-- The first of two items is a barrier.
abbrev work : Work ℕ (Unit {0})
work = record {
  config_barrier = λ d. nat_beq d 1;
  barrier = λ d. false;
  abort_signal = λ x. false;
  Acts = λ d x y. Unit;
  Returns = λ d x. Unit;
}

abbrev items : List ℕ
items = 1 ∷ 2 ∷ []

abbrev one_running : Run ℕ (Unit {0})
one_running = run (waiting (2 ∷ [])) 1 (1 ∷ []) [] [] (1 ∷ []) tt

abbrev one_returned : Run ℕ (Unit {0})
one_returned = run (waiting (2 ∷ [])) 1 [] (1 ∷ []) [] (1 ∷ []) tt

one_running-Reach : Reach work items tt one_running
unfolding after_start
one_running-Reach = stepped (stepped (stepped begun (next_item refl)) (acquire omega arith)) start

one_returned-Step : Step work one_running one_returned
one_returned-Step = return_item 1 [] [] tt

Reach-length_example : length one_running.applying ≤ 8
Reach-length_example = Reach-length work items tt one_running one_running-Reach

Reach-InOrder_example :
    InOrder work items one_running.phase one_running.applying one_running.returned
      one_running.released one_running.started
Reach-InOrder_example = Reach-InOrder work items tt one_running one_running-Reach

Reach-Closer_example :
    (one_returned.phase ≡ finished)
    ⊎ (((d : ℕ) × In d one_returned.applying) ⊎ Closer work one_returned)
Reach-Closer_example =
    Reach-Closer work items tt one_returned (stepped one_running-Reach one_returned-Step)
