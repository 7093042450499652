-- ===== src/Prelude/Maps.antt =====
-- Go's maps, as association lists. A map is iterated in the order of its list; the source iterates
-- in any order, so every theorem that ranges over all lists covers every order. A set is a list of
-- its keys.
use mathlib.Core.Path.{◌≡◌, refl}
use mathlib.Core.Logic.{inl, inr, ◌↔◌, ◌≢◌}
use mathlib.Core.Bool.{Bool, true, false, ◌||◌}
use mathlib.Core.Option.{Option, none, some}
use mathlib.Core.List.{List, [], ◌∷◌, ◌++◌}
use native.Mathlib.Omega.{arith}
use kluctl.Prelude.Tests.{if◌then◌else◌, Bool-cases}
use kluctl.Prelude.Equality.{Eq, ◌==◌, beq_refl}
use kluctl.Prelude.Lists.{contains, contains-append}

abbrev pub Map {ℓ κ} : Type ℓ → Type κ → Type (ℓ ⊔ κ)
Map K V = List (K × V)

abbrev pub keys {ℓ κ} : {K : Type ℓ} {V : Type κ} → Map K V → List K
keys [] = []
keys ((k, v) ∷ m) = k ∷ keys m

abbrev pub values {ℓ κ} : {K : Type ℓ} {V : Type κ} → Map K V → List V
values [] = []
values ((k, v) ∷ m) = v ∷ values m

module _ {ℓ κ} {K : Type ℓ} {V : Type κ} ⦃e : Eq K⦄ where
  unfoldable pub lookup : K → Map K V → Option V
  lookup k [] = none
  lookup k ((j, v) ∷ m) = if j == k then some v else lookup k m

  -- `m[k] = v`
  unfoldable pub insert : K → V → Map K V → Map K V
  insert key new [] = (key, new) ∷ []
  insert key new ((j, old) ∷ m) = if j == key then (key, new) ∷ m else (j, old) ∷ insert key new m

  -- `delete(m, k)`
  unfoldable pub delete : K → Map K V → Map K V
  delete k [] = []
  delete k ((j, w) ∷ m) = if j == k then delete k m else (j, w) ∷ delete k m

  -- `_, ok := m[k]`
  unfoldable pub has : K → Map K V → Bool
  has k m = contains (keys m) k

  pub lookup-insert :
      (key j : K) (new : V) (m : Map K V)
      → lookup j (insert key new m) ≡ (if key == j then some new else lookup j m)
  unfolding insert lookup
  lookup-insert key j new [] = refl
  lookup-insert key j new ((i, old) ∷ m) =
      let rest = lookup-insert key j new m in
      ground (arith, rest, e.beq_iff i key, e.beq_iff i j, e.beq_iff key j)

  pub lookup-delete :
      (k j : K) (m : Map K V) → lookup j (delete k m) ≡ (if k == j then none else lookup j m)
  unfolding lookup delete
  lookup-delete k j [] = ground arith
  lookup-delete k j ((i, w) ∷ m) =
      ground (arith, e.beq_iff k j, e.beq_iff i k, e.beq_iff i j, lookup-delete k j m)

  pub has-insert : (k j : K) (v : V) (m : Map K V) → has j (insert k v m) ≡ (k == j || has j m)
  unfolding has insert contains
  has-insert k j v [] = refl
  has-insert k j v ((i, w) ∷ m) =
      ground (arith, e.beq_iff k j, e.beq_iff i k, e.beq_iff i j, has-insert k j v m)

  pub has-lookup : (k : K) (m : Map K V) → (has k m ≡ true) ↔ (lookup k m ≢ none)
  unfolding has lookup contains
  has-lookup k [] = (λ h. cc, λ h. absurd (h refl))
  has-lookup k ((j, v) ∷ m) = elim (Bool-cases (j == k)) [
    | inl same ↦ rw same (λ h. cc, λ h. refl)
    | inr other ↦ rw other (has-lookup k m)
  ]

  pub lookup-none : (k : K) (m : Map K V) → has k m ≡ false → lookup k m ≡ none
  unfolding has lookup contains
  lookup-none k [] h = refl
  lookup-none k ((j, v) ∷ m) h = ground (arith, lookup-none k m)

  pub lookup-insert_self : (k : K) (v : V) (m : Map K V) → lookup k (insert k v m) ≡ some v
  lookup-insert_self k v m = simp (lookup-insert, beq_refl)

module _ {ℓ} {K : Type ℓ} ⦃e : Eq K⦄ where
  -- `s[k] = true` on a set.
  unfoldable pub add : K → List K → List K
  add k s = if contains s k then s else s ++ k ∷ []

  pub contains-add : (k j : K) (s : List K) → contains (add k s) j ≡ (k == j || contains s j)
  unfolding add contains
  contains-add k j s = elim (Bool-cases (contains s k)) [
    | inl old ↦ rw old (old_same k j s old)
    | inr new ↦ rw (new, contains-append s (k ∷ []) j) (flip (contains s j) (k == j))
  ]
    where
      old_same :
          (k j : K) (s : List K) → contains s k ≡ true → contains s j ≡ (k == j || contains s j)
      old_same k j s old = ground (arith, e.beq_iff k j)

      flip : (a b : Bool) → (a || (b || false)) ≡ (b || a)
      flip a b = ground arith
