-- ===== src/Prelude/Sort.antt =====
-- Sorting as Go's sort package does it: `less` is the closure that the caller gives.
use mathlib.Core.Bool.{Bool}
use mathlib.Core.List.{List, [], ◌∷◌}
use kluctl.Prelude.Tests.{if◌then◌else◌}

module _ {ℓ} {A : Type ℓ} (less : A → A → Bool) where
  unfoldable pub insert_stable : A → List A → List A
  insert_stable x [] = x ∷ []
  insert_stable x (y ∷ ys) =
      let rest = insert_stable x ys in if less y x then y ∷ rest else x ∷ y ∷ ys

  -- `sort.SliceStable`
  unfoldable pub slice_stable : List A → List A
  unfolding insert_stable
  slice_stable [] = []
  slice_stable (x ∷ xs) = insert_stable x (slice_stable xs)
