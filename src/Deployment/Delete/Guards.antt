-- ===== src/Deployment/Delete/Guards.antt =====
-- The tests of `filterObjectsForDelete` in pkg/deployment/utils/delete_utils.go, and what is excluded.
use text.Mathlib.Text.{◌==◌ as str_eq}
use kluctl.Prelude.{
  if◌then◌else◌, not, ◌&&◌, Option, ◌≡◌, refl, Bool, true, false, ◌==◌, List, [], ◌∷◌, contains,
  contains-add, In, here, there, any, is_empty, add, Bool-cases, inl, inr, ◌⊎◌, arith,
}
use kluctl.Types.ObjectRef.{
  ObjectRef, GroupVersionKind, GroupKind, ref_eq, gk_eq, group_kind, ref_beq_iff,
}
use kluctl.Utils.Parse.{parse_bool_or_false}
use kluctl.Deployment.Apply.{ObjectApi, is_skip_delete}
use kluctl.Deployment.Delete.{object_ref_for_exclusion, is_deletable, exclude_all, excluded_map}

-- A guard that returns false, passed.
passes : (b r : Bool) → (if b then false else r) ≡ true → (b ≡ false) × (r ≡ true)
passes true r h = cc
passes false r h = (refl, h)

pass : (b r : Bool) → b ≡ false → r ≡ true → (if b then false else r) ≡ true
pass true r e h = cc
pass false r e h = h

not-false : (b : Bool) → not b ≡ false → b ≡ true
not-false true e = refl
not-false false e = cc

module _ {Obj : Type 0} (objects : ObjectApi Obj)
    (is_namespaced : GroupVersionKind → Option Bool) where
  open objects use {ref_of, owner_references, managed_fields, manager}

  -- The object is not owned, kluctl is one of its managers, and its annotations do not keep it: neither
  -- always, nor where the inclusion has tags.
  abbrev pub IsOurs : Bool → Obj → Type 0
  IsOurs tags x =
      (is_skip_delete objects x ≡ false)
      × ((tags && parse_bool_or_false (objects.annotation x "kluctl.io/skip-delete-if-tags"))
          ≡ false)
      × (is_empty (owner_references x) ≡ true)
      × (any (λ mf. str_eq (manager mf) "kluctl") (managed_fields x) ≡ true)

  abbrev pub exclusion : Obj → ObjectRef
  exclusion x = object_ref_for_exclusion is_namespaced (ref_of x)

  -- The tests that an object passes.
  Passed : List GroupKind → Bool → List ObjectRef → Obj → Type 0
  Passed f tags excluded x =
      (not (contains f (group_kind (ref_of x))) ≡ false)
      × (is_skip_delete objects x ≡ false)
      × (not (is_empty (owner_references x)) ≡ false)
      × (is_empty (managed_fields x) ≡ false)
      × (not (any (λ mf. str_eq (manager mf) "kluctl") (managed_fields x)) ≡ false)
      × (contains excluded (exclusion x) ≡ false)
      × ((if tags && parse_bool_or_false (objects.annotation x "kluctl.io/skip-delete-if-tags")
            then false
            else true)
          ≡ true)

  is_deletable-Passed :
      (f : List GroupKind) (tags : Bool) (excluded : List ObjectRef) (x : Obj)
      → is_deletable objects is_namespaced f tags excluded x ≡ true
      → Passed f tags excluded x
  unfolding is_deletable Passed
  is_deletable-Passed f tags excluded x h =
      let (a, h1) = passes _ _ h in
      let (b, h2) = passes _ _ h1 in
      let (c, h3) = passes _ _ h2 in
      let (d, h4) = passes _ _ h3 in
      let (e, h5) = passes _ _ h4 in let (g, h6) = passes _ _ h5 in (a, b, c, d, e, g, h6)

  Passed-is_deletable :
      (f : List GroupKind) (tags : Bool) (excluded : List ObjectRef) (x : Obj)
      → Passed f tags excluded x
      → is_deletable objects is_namespaced f tags excluded x ≡ true
  unfolding is_deletable Passed
  Passed-is_deletable f tags excluded x (a, b, c, d, e, g, h) =
      pass _ _ a (pass _ _ b (pass _ _ c (pass _ _ d (pass _ _ e (pass _ _ g h)))))

  pub is_deletable-IsOurs :
      (f : List GroupKind) (tags : Bool) (excluded : List ObjectRef) (x : Obj)
      → is_deletable objects is_namespaced f tags excluded x ≡ true
      → IsOurs tags x × (contains excluded (exclusion x) ≡ false)
  unfolding Passed
  is_deletable-IsOurs f tags excluded x h =
      let (a, b, c, d, e, g, i) = is_deletable-Passed f tags excluded x h in
      ((b, (passes _ _ i).0, not-false _ c, not-false _ e), g)

  -- What is excluded matters for nothing else.
  pub is_deletable-excluded :
      (f : List GroupKind) (tags : Bool) (excluded excluded' : List ObjectRef) (x : Obj)
      → is_deletable objects is_namespaced f tags excluded x ≡ true
      → contains excluded' (exclusion x) ≡ false
      → is_deletable objects is_namespaced f tags excluded' x ≡ true
  unfolding Passed
  is_deletable-excluded f tags excluded excluded' x h free =
      let (a, b, c, d, e, g, i) = is_deletable-Passed f tags excluded x h in
      Passed-is_deletable f tags excluded' x (a, b, c, d, e, free, i)

  pub exclude_all-keeps :
      (l : List Obj) (excluded : List ObjectRef) (r : ObjectRef)
      → contains (exclude_all objects is_namespaced l excluded) r ≡ false
      → contains excluded r ≡ false
  exclude_all-keeps [] excluded r h = h
  exclude_all-keeps (x ∷ l) excluded r h =
      let i = exclude_all-keeps l (add (exclusion x) excluded) r h in
      ground (arith, i, contains-add (exclusion x) r excluded)

  -- What is excluded after a step was excluded before it or found by it.
  pub exclude_all-cases :
      (l : List Obj) (excluded : List ObjectRef) (r : ObjectRef)
      → contains (exclude_all objects is_namespaced l excluded) r ≡ true
      → (contains excluded r ≡ true) ⊎ ((y : Obj) × In y l × (exclusion y ≡ r))
  exclude_all-cases [] excluded r h = inl h
  exclude_all-cases (x ∷ l) excluded r h =
      elim (exclude_all-cases l (add (exclusion x) excluded) r h) [
        | inr (y, i, e) ↦ inr (y, there i, e)
        | inl c ↦ elim (Bool-cases (exclusion x == r)) [
          | inl same ↦ inr (x, here, (ref_beq_iff (exclusion x) r).0 same)
          | inr other ↦ inl (ground (arith, c, other, contains-add (exclusion x) r excluded))
        ]
      ]

  pub excluded_map-In :
      (r : ObjectRef) (excluded : List ObjectRef)
      → In r excluded
      → contains
          (excluded_map objects is_namespaced excluded)
          (object_ref_for_exclusion is_namespaced r)
        ≡ true
  excluded_map-In r [] i = elim i [ ]
  excluded_map-In _ (r ∷ rs) here =
      let s = excluded_map objects is_namespaced rs in
      let e = object_ref_for_exclusion is_namespaced r in
      ground (arith, contains-add e e s, ref_beq_iff e e)
  excluded_map-In r (q ∷ rs) (there i) =
      let h = excluded_map-In r rs i in
      let s = excluded_map objects is_namespaced rs in
      let e = object_ref_for_exclusion is_namespaced r in
      ground (arith, h, contains-add (object_ref_for_exclusion is_namespaced q) e s)
