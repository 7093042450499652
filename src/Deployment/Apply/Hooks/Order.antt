-- ===== src/Deployment/Apply/Hooks/Order.antt =====
-- The order in which `getSortedHooksList` of pkg/deployment/utils/hooks_util.go leaves the hooks.
use kluctl.Prelude.{
  String, insert_stable, slice_stable, ◌≡◌, refl, ap, ◌∙◌, Bool, true, false, ℤ, int_ltb, int_beq,
  int_beq_iff, List, [], ◌∷◌, select, All, All-weaken, Bool-cases, inl, inr, arith, if◌then◌else◌,
}
use kluctl.Deployment.Apply.{Env, ApplyUtil}
use kluctl.Deployment.Apply.Hooks.{
  Hook, Texts, is_lighter, get_hooks, get_sorted_hooks_list, is_one_of,
}
use kluctl.Deployment.Apply.Hooks.Run.{determine_hooks}

int_asym : (a b : ℤ) → int_ltb a b ≡ true → int_ltb b a ≡ false
int_asym a b h = ground arith

int_trans : (a b c : ℤ) → int_ltb a b ≡ false → int_ltb b c ≡ false → int_ltb a c ≡ false
int_trans a b c h i = ground arith

int_lt_ne : (a b w : ℤ) → int_ltb a b ≡ true → int_beq b w ≡ true → int_beq a w ≡ false
int_lt_ne a b w h i = ground (arith, int_beq_iff a w, int_beq_iff b w)

-- No hook stands before a lighter one.
abbrev pub IsSorted : {Obj : Type 0} → List (Hook Obj) → Type 0
IsSorted [] = Unit
IsSorted (h ∷ hs) = All (λ g. int_ltb g.weight h.weight ≡ false) hs × IsSorted hs

abbrev pub has_weight : {Obj : Type 0} → ℤ → Hook Obj → Bool
has_weight w h = int_beq h.weight w

select-cons_ap {ℓ} :
    {A : Type ℓ} (p : A → Bool) (x : A) (xs ys : List A)
    → select p xs ≡ select p ys
    → select p (x ∷ xs) ≡ select p (x ∷ ys)
unfolding select
select-cons_ap p x xs ys e = ap (λ l. if p x then x ∷ l else l) e

module _ {Obj : Type 0} where
  insert_stable-All :
      (P : Hook Obj → Type 0) (h : Hook Obj) (hs : List (Hook Obj))
      → P h
      → All P hs
      → All P (insert_stable is_lighter h hs)
  unfolding insert_stable
  insert_stable-All P h [] p a = (p, tt)
  insert_stable-All P h (g ∷ gs) p a = elim (Bool-cases (int_ltb g.weight h.weight)) [
    | inl lighter ↦ rw lighter (a.0, insert_stable-All P h gs p a.1)
    | inr not_lighter ↦ rw not_lighter (p, a)
  ]

  insert_stable-IsSorted :
      (h : Hook Obj) (hs : List (Hook Obj)) → IsSorted hs → IsSorted (insert_stable is_lighter h hs)
  unfolding insert_stable
  insert_stable-IsSorted h [] s = (tt, tt)
  insert_stable-IsSorted h (g ∷ gs) s = elim (Bool-cases (int_ltb g.weight h.weight)) [
    | inl lighter ↦ rw lighter (
      insert_stable-All (λ x. int_ltb x.weight g.weight ≡ false) h gs
          (int_asym g.weight h.weight lighter) s.0,
      insert_stable-IsSorted h gs s.1,
    )
    | inr not_lighter ↦ rw not_lighter (
      (
        not_lighter,
        All-weaken (λ x. int_ltb x.weight g.weight ≡ false) _ gs
            (λ x e. int_trans x.weight g.weight h.weight e not_lighter) s.0,
      ),
      s,
    )
  ]

  select-insert_stable :
      (w : ℤ) (h : Hook Obj) (hs : List (Hook Obj))
      → select (has_weight w) (insert_stable is_lighter h hs) ≡ select (has_weight w) (h ∷ hs)
  unfolding insert_stable select
  select-insert_stable w h [] = refl
  select-insert_stable w h (g ∷ gs) = elim (Bool-cases (int_ltb g.weight h.weight)) [
    | inr not_lighter ↦ rw not_lighter refl
    | inl lighter ↦
        let rest = select-insert_stable w h gs in
        elim (Bool-cases (int_beq h.weight w)) [
          | inl same ↦
              ground (arith, lighter, same, rest, int_lt_ne g.weight h.weight w lighter same)
          | inr other ↦ ground (arith, lighter, other, rest)
        ]
  ]

  sort-IsSorted : (hs : List (Hook Obj)) → IsSorted (slice_stable is_lighter hs)
  unfolding slice_stable
  sort-IsSorted [] = tt
  sort-IsSorted (h ∷ hs) = insert_stable-IsSorted h (slice_stable is_lighter hs) (sort-IsSorted hs)

  select-sort :
      (w : ℤ) (hs : List (Hook Obj))
      → select (has_weight w) (slice_stable is_lighter hs) ≡ select (has_weight w) hs
  unfolding slice_stable
  select-sort w [] = refl
  select-sort w (h ∷ hs) =
      select-insert_stable w h (slice_stable is_lighter hs)
      ∙ select-cons_ap (has_weight w) h _ hs (select-sort w hs)

  -- A choice among sorted hooks is sorted.
  All-select :
      (P : Hook Obj → Type 0) (p : Hook Obj → Bool) (hs : List (Hook Obj))
      → All P hs
      → All P (select p hs)
  unfolding select
  All-select P p [] a = tt
  All-select P p (h ∷ hs) a = elim (Bool-cases (p h)) [
    | inl chosen ↦ rw chosen (a.0, All-select P p hs a.1)
    | inr other ↦ rw other (All-select P p hs a.1)
  ]

  select-IsSorted :
      (p : Hook Obj → Bool) (hs : List (Hook Obj)) → IsSorted hs → IsSorted (select p hs)
  unfolding select
  select-IsSorted p [] s = tt
  select-IsSorted p (h ∷ hs) s = elim (Bool-cases (p h)) [
    | inl chosen ↦ rw chosen (All-select _ p hs s.0, select-IsSorted p hs s.1)
    | inr other ↦ rw other (select-IsSorted p hs s.1)
  ]

  select-select :
      (p q : Hook Obj → Bool) (hs : List (Hook Obj))
      → select p (select q hs) ≡ select q (select p hs)
  unfolding select
  select-select p q [] = refl
  select-select p q (h ∷ hs) = ground (arith, select-select p q hs)

-- DetermineHooks returns no hook before a lighter one; of every weight it returns those hooks that
-- GetHook finds in the objects and that are of one of the given kinds, all of them and in the
-- order of the objects; and it records what GetHook records.
pub determine_hooks-IsSorted :
    {Obj World : Type 0} (env : Env Obj World) (t : Texts) (xs : List Obj) (hooks : List String)
    (a : ApplyUtil Obj World) (w : ℤ)
    → IsSorted (determine_hooks env t xs hooks a).0
      × (select (has_weight w) (determine_hooks env t xs hooks a).0
          ≡ select (is_one_of env t hooks) (select (has_weight w) (get_hooks env t xs a).0))
      × ((determine_hooks env t xs hooks a).1 ≡ (get_hooks env t xs a).1)
unfolding determine_hooks get_sorted_hooks_list
determine_hooks-IsSorted env t xs hooks a w =
    let found = (get_hooks env t xs a).0 in
    (
      select-IsSorted (is_one_of env t hooks) _ (sort-IsSorted found),
      select-select (has_weight w) (is_one_of env t hooks) (slice_stable is_lighter found)
          ∙ ap (select (is_one_of env t hooks)) (select-sort w found),
      refl,
    )
