-- ===== src/Prelude/Lists.antt =====
-- Lists measured by native numbers, membership tests and predicates by recursion.
use Prim.Native.Nat.{ℕ, zero, suc, ◌+◌}
use mathlib.Core.Path.{◌≡◌, refl, sym, subst}
use mathlib.Core.Logic.{◌⊎◌, inl, inr}
use mathlib.Core.Bool.{Bool, true, false, ◌||◌}
use mathlib.Core.Option.{Option, none, some}
use mathlib.Core.List.{List, [], ◌∷◌, ◌++◌}
use native.Mathlib.Omega.{arith}
use kluctl.Prelude.Tests.{if◌then◌else◌}
use kluctl.Prelude.Equality.{Eq, ◌==◌}

module _ {ℓ} {A : Type ℓ} where
  abbrev pub length : List A → ℕ
  length [] = 0
  length (x ∷ xs) = suc (length xs)

  abbrev pub get_elem? : List A → ℕ → Option A
  get_elem? [] i = none
  get_elem? (x ∷ xs) zero = some x
  get_elem? (x ∷ xs) (suc i) = get_elem? xs i

  abbrev pub is_empty : List A → Bool
  is_empty [] = true
  is_empty (x ∷ xs) = false

  pub length-append : (xs ys : List A) → length (xs ++ ys) ≡ length xs + length ys
  length-append [] ys = omega arith
  length-append (x ∷ xs) ys = omega (arith, length-append xs ys)

  -- The elements that pass a Boolean test.
  unfoldable pub select : (A → Bool) → List A → List A
  select p [] = []
  select p (x ∷ xs) = if p x then x ∷ select p xs else select p xs

  unfoldable pub any : (A → Bool) → List A → Bool
  any p [] = false
  any p (x ∷ xs) = p x || any p xs

  abbrev pub All {κ} : (A → Type κ) → List A → Type κ
  All P [] = Unit
  All P (x ∷ xs) = P x × All P xs

  -- Membership as a proof.
  pub data In (a : A) : List A → Type ℓ where
    here : {xs : List A} → In a (a ∷ xs)
    there : {x : A} {xs : List A} → In a xs → In a (x ∷ xs)

module _ {ℓ} {A : Type ℓ} where
  In-if :
      (b : Bool) (a x : A) (xs : List A)
      → In a (if b then x ∷ xs else xs)
      → ((x ≡ a) × (b ≡ true)) ⊎ In a xs
  In-if true a x xs here = inl (refl, refl)
  In-if true a x xs (there i) = inr i
  In-if false a x xs i = inr i

  if-In : (b : Bool) (a x : A) (xs : List A) → In a xs → In a (if b then x ∷ xs else xs)
  if-In true a x xs i = there i
  if-In false a x xs i = i

  if-In_head : (b : Bool) (x : A) (xs : List A) → b ≡ true → In x (if b then x ∷ xs else xs)
  if-In_head true x xs e = here
  if-In_head false x xs e = cc

  -- An element is selected if it is in the list and passes the test.
  pub In-select : (p : A → Bool) (a : A) (xs : List A) → In a (select p xs) → In a xs × (p a ≡ true)
  unfolding select
  In-select p a [] i = elim i [ ]
  In-select p a (x ∷ xs) i = elim (In-if (p x) a x (select p xs) i) [
    | inl (e, t) ↦ (subst (λ y. In a (y ∷ xs)) (sym e) here, subst (λ y. p y ≡ true) e t)
    | inr j ↦ (there (In-select p a xs j).0, (In-select p a xs j).1)
  ]

  pub select-In : (p : A → Bool) (a : A) (xs : List A) → In a xs → p a ≡ true → In a (select p xs)
  unfolding select
  select-In p a [] i t = elim i [ ]
  select-In p _ (a ∷ xs) here t = if-In_head (p a) a (select p xs) t
  select-In p a (x ∷ xs) (there i) t = if-In (p x) a x (select p xs) (select-In p a xs i t)

  pub In-append_left : (a : A) (xs ys : List A) → In a xs → In a (xs ++ ys)
  In-append_left a [] ys i = elim i [ ]
  In-append_left _ (a ∷ xs) ys here = here
  In-append_left a (x ∷ xs) ys (there i) = there (In-append_left a xs ys i)

  pub In-append_right : (a : A) (xs ys : List A) → In a ys → In a (xs ++ ys)
  In-append_right a [] ys i = i
  In-append_right a (x ∷ xs) ys i = there (In-append_right a xs ys i)

  pub In-append : (a : A) (xs ys : List A) → In a (xs ++ ys) → In a xs ⊎ In a ys
  In-append a [] ys i = inr i
  In-append a (x ∷ xs) ys here = inl here
  In-append a (x ∷ xs) ys (there i) = elim (In-append a xs ys i) [
    | inl j ↦ inl (there j)
    | inr j ↦ inr j
  ]

module _ {ℓ} {A : Type ℓ} where
  pub All-append {κ} : (P : A → Type κ) (xs ys : List A) → All P xs → All P ys → All P (xs ++ ys)
  All-append P [] ys h k = k
  All-append P (x ∷ xs) ys h k = (h.0, All-append P xs ys h.1 k)

  pub All-weaken {κ μ} :
      (P : A → Type κ) (Q : A → Type μ) (xs : List A) → ((a : A) → P a → Q a) → All P xs → All Q xs
  All-weaken P Q [] f h = tt
  All-weaken P Q (x ∷ xs) f h = (f x h.0, All-weaken P Q xs f h.1)

-- Membership as a Boolean test.
module _ {ℓ} {A : Type ℓ} ⦃e : Eq A⦄ where
  unfoldable pub contains : List A → A → Bool
  contains [] a = false
  contains (x ∷ xs) a = x == a || contains xs a

  pub contains-append :
      (xs ys : List A) (a : A) → contains (xs ++ ys) a ≡ (contains xs a || contains ys a)
  unfolding contains
  contains-append [] ys a = refl
  contains-append (x ∷ xs) ys a = ground (arith, contains-append xs ys a)

  pub contains-cons_self : (a : A) (xs : List A) → contains (a ∷ xs) a ≡ true
  unfolding contains
  contains-cons_self a xs = ground (arith, e.beq_iff a a)

  pub contains-cons_of : (a b : A) (xs : List A) → contains xs b ≡ true → contains (a ∷ xs) b ≡ true
  unfolding contains
  contains-cons_of a b xs h = ground arith

  pub contains-nil : (a : A) → contains [] a ≡ false
  unfolding contains
  contains-nil a = refl

  -- Membership in a nonempty list is at the head or in the tail.
  pub contains-cons_cases :
      (a b : A) (xs : List A) → contains (a ∷ xs) b ≡ true → (a ≡ b) ⊎ (contains xs b ≡ true)
  unfolding contains
  contains-cons_cases a b xs h = ground (arith, e.beq_iff a b)
