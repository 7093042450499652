-- ===== src/Validation/Flow/Laws.antt =====
-- Assertions on the results that the code of pkg/validation/validation.go collects, kept by every
-- piece of it.
use kluctl.Prelude.{Bool, true, false, Option, Result, ok, err, panicked, if◌then◌else◌}
use kluctl.Validation.Flow.{
  ValidateResult, Flow, next, returned, failed, crashed, M, go_on, ◌>>=◌, ◌>>◌, pure, skip, leave,
  when, getter, found_of,
}

module _ (Holds Raised : ValidateResult → Type 0) where
  -- What holds after a piece of code: `Raised` where it raised `validationFailed`, else `Holds`.
  abbrev pub After : {A : Type 0} → Flow A × ValidateResult → Type 0
  After (next a, v) = Holds v
  After (returned, v) = Holds v
  After (failed, v) = Raised v
  After (crashed, v) = Holds v

  pub record Keeps {A : Type 0} (m : M A) : Type 0 where
    pub keep : (v : ValidateResult) → Holds v → After (m v)

module _ {Holds Raised : ValidateResult → Type 0} where
  go_on-After :
      {A B : Type 0} (f : A → M B) (r : Flow A × ValidateResult)
      → ((a : A) → Keeps Holds Raised (f a))
      → After Holds Raised r
      → After Holds Raised (go_on f r)
  go_on-After f (next a, v) k h = (k a).keep v h
  go_on-After f (returned, v) k h = h
  go_on-After f (failed, v) k h = h
  go_on-After f (crashed, v) k h = h

  infixr 4 ◌then_keep◌ ◌also_keep◌
  -- The pieces of a `do` block, one after the other.
  pub ◌then_keep◌ :
      {A B : Type 0} {m : M A} {f : A → M B}
      → Keeps Holds Raised m
      → ((a : A) → Keeps Holds Raised (f a))
      → Keeps Holds Raised (m >>= f)
  unfolding ◌>>=◌
  ◌then_keep◌ {m = m} {f = f} h k = record { keep = λ v p. go_on-After f (m v) k (h.keep v p) }

  pub ◌also_keep◌ :
      {B : Type 0} {m : M (Unit {0})} {n : M B}
      → Keeps Holds Raised m
      → Keeps Holds Raised n
      → Keeps Holds Raised (m >> n)
  unfolding ◌>>◌
  ◌also_keep◌ {m = m} {n = n} h k = record {
    keep = λ v p. go_on-After (λ _. n) (m v) (λ _. k) (h.keep v p);
  }

  pub if-Keeps :
      {A : Type 0} (b : Bool) {m n : M A}
      → Keeps Holds Raised m
      → Keeps Holds Raised n
      → Keeps Holds Raised (if b then m else n)
  if-Keeps true h k = h
  if-Keeps false h k = k

  pub when-Keeps :
      (b : Bool) {m : M (Unit {0})} → Keeps Holds Raised m → Keeps Holds Raised (when b m)
  when-Keeps true h = h
  when-Keeps false h = record { keep = λ v p. p }

  pub pure-Keeps : {A : Type 0} (a : A) → Keeps Holds Raised (pure a)
  pure-Keeps a = record { keep = λ v h. h }

  pub skip-Keeps : Keeps Holds Raised skip
  skip-Keeps = record { keep = λ v h. h }

  pub leave-Keeps : {A : Type 0} → Keeps Holds Raised (leave {A = A})
  leave-Keeps = record { keep = λ v h. h }

  pub getter-Keeps : {A : Type 0} (r : Result A) → Keeps Holds Raised (getter r)
  getter-Keeps (ok a) = record { keep = λ v h. h }
  getter-Keeps (err e) = record { keep = λ v h. h }
  getter-Keeps panicked = record { keep = λ v h. h }

  pub found_of-Keeps : {A : Type 0} (r : Result (Option A)) → Keeps Holds Raised (found_of r)
  found_of-Keeps (ok a) = record { keep = λ v h. h }
  found_of-Keeps (err e) = record { keep = λ v h. h }
  found_of-Keeps panicked = record { keep = λ v h. h }
