-- ===== src/Deployment/Delete/Laws.antt =====
-- What `FindObjectsForDelete` of pkg/deployment/utils/delete_utils.go finds.
use kluctl.Prelude.{
  Option, ◌≢◌, String, ◌≡◌, refl, sym, ap, Bool, true, false, List, [], ◌∷◌, ◌++◌, contains, select,
  In, here, there, In-select, select-In, In-append_left, In-append_right, In-append, map, subst, ok,
  >>=-eq-ok, ◌>>=◌, Bool-cases, inl, inr, ◌⊎◌,
}
use kluctl.Types.ObjectRef.{ObjectRef, GroupVersionKind, ref_eq, gk_eq}
use kluctl.K8s.Resources.{
  ApiResource, Discovery, ApiGroupResources, preferred, get_filtered_preferred_gvks,
}
use kluctl.Deployment.Apply.{ObjectApi}
use kluctl.Deployment.Delete.{
  delete_order, object_ref_for_exclusion, filter_func, is_deletable, filter_objects_for_delete,
  exclude_all, find_steps, excluded_map, find_objects_for_delete, group_kinds,
}
use kluctl.Deployment.Delete.Guards.{
  IsOurs, exclusion, is_deletable-IsOurs, is_deletable-excluded, exclude_all-keeps,
  exclude_all-cases, excluded_map-In,
}

In-map {ℓ κ} :
    {A : Type ℓ} {B : Type κ} (f : A → B) (b : B) (xs : List A)
    → In b (map f xs)
    → (a : A) × In a xs × (f a ≡ b)
In-map f b [] i = elim i [ ]
In-map f _ (x ∷ xs) here = (x, here, refl)
In-map f b (x ∷ xs) (there i) = let (a, j, e) = In-map f b xs i in (a, there j, e)

map-In {ℓ κ} :
    {A : Type ℓ} {B : Type κ} (f : A → B) (a : A) (xs : List A) → In a xs → In (f a) (map f xs)
map-In f a [] i = elim i [ ]
map-In f _ (x ∷ xs) here = here
map-In f a (x ∷ xs) (there i) = there (map-In f a xs i)

In-tail {ℓ} : {A : Type ℓ} (a x : A) (xs : List A) → In a (x ∷ xs) → (x ≡ a) ⊎ In a xs
In-tail a _ xs here = inl refl
In-tail a x xs (there i) = inr i

module _ {Obj : Type 0} (objects : ObjectApi Obj)
    (is_namespaced : GroupVersionKind → Option Bool) where
  open objects use {ref_of}

  abbrev pub Found : Bool → List Obj → List ObjectRef → ObjectRef → Type 0
  Found tags xs excluded ref =
      (x : Obj) × In x xs
      × (ref_of x ≡ ref)
      × IsOurs objects is_namespaced tags x
      × (contains excluded (exclusion objects is_namespaced x) ≡ false)

  find_steps-Found :
      (d : Discovery) (xs : List Obj) (tags : Bool) (steps : List (List String))
      (excluded refs : List ObjectRef) (ref : ObjectRef)
      → find_steps objects is_namespaced d xs tags steps excluded ≡ ok refs
      → In ref refs
      → Found tags xs excluded ref
  unfolding find_steps filter_objects_for_delete
  find_steps-Found d xs tags [] excluded refs ref e i =
      let none_found : refs ≡ [] = cc in let j = subst (λ l. In ref l) none_found i in elim j [ ]
  find_steps-Found d xs tags (step ∷ steps) excluded refs ref e i =
      let (l, a, b) =
        >>=-eq-ok (filter_objects_for_delete objects is_namespaced d xs step tags excluded) _ e in
      let (gvks, p, q) = >>=-eq-ok (get_filtered_preferred_gvks d (filter_func step)) _ a in
      let (rest, s, t) =
        >>=-eq-ok
          (find_steps objects is_namespaced d xs tags steps
            (exclude_all objects is_namespaced l excluded))
          _ b in
      let u : (map ref_of l ++ rest) ≡ refs = cc in
      let v : select (is_deletable objects is_namespaced (group_kinds gvks) tags excluded) xs ≡ l =
        cc in
      elim (In-append ref (map ref_of l) rest (subst (λ z. In ref z) (sym u) i)) [
        | inl j ↦
            let (x, m, n) = In-map ref_of ref l j in
            let (o, w) = In-select _ x xs (subst (λ z. In x z) (sym v) m) in
            let (ours, free) =
              is_deletable-IsOurs objects is_namespaced (group_kinds gvks) tags excluded x w in
            (x, o, n, ours, free)
        | inr j ↦
            let (x, m, n, ours, free) = find_steps-Found d xs tags steps _ rest ref s j in
            (
              x,
              m,
              n,
              ours,
              exclude_all-keeps objects is_namespaced l excluded (exclusion objects is_namespaced x)
                  free,
            )
      ]

  -- What is left out of a step, another one takes: the last step has no filter.
  find_steps_complete :
      (d : Discovery) (xs : List Obj) (tags : Bool) (all : List GroupVersionKind) (x : Obj)
      (steps : List (List String)) (excluded refs : List ObjectRef)
      → get_filtered_preferred_gvks d (filter_func []) ≡ ok all
      → In x xs
      → In [] steps
      → is_deletable objects is_namespaced (group_kinds all) tags excluded x ≡ true
      → find_steps objects is_namespaced d xs tags steps excluded ≡ ok refs
      → (y : Obj) × In (ref_of y) refs
        × (exclusion objects is_namespaced y ≡ exclusion objects is_namespaced x)
  unfolding find_steps filter_objects_for_delete
  find_steps_complete d xs tags all x [] excluded refs g m i h e = elim i [ ]
  find_steps_complete d xs tags all x (step ∷ steps) excluded refs g m i h e =
      let (l, a, b) =
        >>=-eq-ok (filter_objects_for_delete objects is_namespaced d xs step tags excluded) _ e in
      let (gvks, p, q) = >>=-eq-ok (get_filtered_preferred_gvks d (filter_func step)) _ a in
      let (rest, s, t) =
        >>=-eq-ok
          (find_steps objects is_namespaced d xs tags steps
            (exclude_all objects is_namespaced l excluded))
          _ b in
      let u : (map ref_of l ++ rest) ≡ refs = cc in
      let v : select (is_deletable objects is_namespaced (group_kinds gvks) tags excluded) xs ≡ l =
        cc in
      elim (Bool-cases (
        contains (exclude_all objects is_namespaced l excluded)
          (exclusion objects is_namespaced x))) [
            | inl now ↦
                elim (exclude_all-cases objects is_namespaced l excluded
                  (exclusion objects is_namespaced x) now) [
                    | inl old ↦
                        cc
                          (is_deletable-IsOurs objects is_namespaced (group_kinds all) tags excluded
                            x h).1
                    | inr (y, j, same) ↦ (
                      y,
                      subst (λ z. In (ref_of y) z) u
                          (In-append_left (ref_of y) (map ref_of l) rest (map-In ref_of y l j)),
                      same,
                    )
                  ]
            | inr free ↦ elim (In-tail [] step steps i) [
              | inr later ↦
                  let k =
                    is_deletable-excluded objects is_namespaced (group_kinds all) tags excluded _ x
                      h free in
                  let (y, j, same) =
                    find_steps_complete d xs tags all x steps _ rest g m later k s in
                  (
                    y,
                    subst (λ z. In (ref_of y) z) u
                        (In-append_right (ref_of y) (map ref_of l) rest j),
                    same,
                  )
              | inl last ↦
                  let same : gvks ≡ all = cc in
                  let j = select-In _ x xs m h in
                  let k : In x l =
                    subst (λ z. In x z) v
                      (subst
                        (λ z. In x (
                          select (is_deletable objects is_namespaced (group_kinds z) tags excluded)
                            xs))
                        (sym same) j) in
                  (
                    x,
                    subst (λ z. In (ref_of x) z) u
                        (In-append_left (ref_of x) (map ref_of l) rest (map-In ref_of x l k)),
                    refl,
                  )
            ]
          ]

  preferred_gvks-ok :
      (d : Discovery) (filter : ApiResource → Bool) (agrs : List ApiGroupResources)
      → d.api_group_resources ≡ ok agrs
      → get_filtered_preferred_gvks d filter ≡ ok (preferred d filter agrs)
  unfolding get_filtered_preferred_gvks
  preferred_gvks-ok d filter agrs e = ap (λ m. m >>= λ a. ok (preferred d filter a)) e

  filter-ok :
      (d : Discovery) (xs : List Obj) (tags : Bool) (agrs : List ApiGroupResources)
      (step : List String) (excluded : List ObjectRef)
      → d.api_group_resources ≡ ok agrs
      → filter_objects_for_delete objects is_namespaced d xs step tags excluded
        ≡ ok (
            select
              (is_deletable objects is_namespaced
                (group_kinds (preferred d (filter_func step) agrs))
                tags
                excluded)
              xs)
  unfolding filter_objects_for_delete
  filter-ok d xs tags agrs step excluded e =
      ap
        (λ m. m >>= λ gvks.
          ok (select (is_deletable objects is_namespaced (group_kinds gvks) tags excluded) xs))
        (preferred_gvks-ok d (filter_func step) agrs e)

  -- The search returns whenever the discovery client answers.
  find_steps-ok :
      (d : Discovery) (xs : List Obj) (tags : Bool) (agrs : List ApiGroupResources)
      (steps : List (List String)) (excluded : List ObjectRef)
      → d.api_group_resources ≡ ok agrs
      → (refs : List ObjectRef) × (find_steps objects is_namespaced d xs tags steps excluded
          ≡ ok refs)
  unfolding find_steps
  find_steps-ok d xs tags agrs [] excluded e = ([], refl)
  find_steps-ok d xs tags agrs (step ∷ steps) excluded e =
      let l =
        select
          (is_deletable objects is_namespaced (group_kinds (preferred d (filter_func step) agrs))
            tags excluded)
          xs in
      let (rest, r) =
        find_steps-ok d xs tags agrs steps (exclude_all objects is_namespaced l excluded) e in
      (map ref_of l ++ rest, rw (filter-ok d xs tags agrs step excluded e, r) refl)

last_step : In [] delete_order
last_step = there (there (there here))

-- Every reference that FindObjectsForDelete returns is that of a given object that kluctl manages,
-- that no object owns, that the annotations which always skip a deletion do not keep, that
-- kluctl.io/skip-delete-if-tags does not keep if FindObjectsForDelete is told that the inclusion
-- has tags, and that is not excluded.
pub find_objects_for_delete-IsOurs :
    {Obj : Type 0} (objects : ObjectApi Obj) (is_namespaced : GroupVersionKind → Option Bool)
    (d : Discovery) (xs : List Obj) (tags : Bool) (excluded refs : List ObjectRef) (ref : ObjectRef)
    → find_objects_for_delete objects is_namespaced d xs tags excluded ≡ ok refs
    → In ref refs
    → (x : Obj) × In x xs
      × (objects.ref_of x ≡ ref)
      × IsOurs objects is_namespaced tags x
      × ((r : ObjectRef)
          → In r excluded
          → object_ref_for_exclusion is_namespaced r ≢ exclusion objects is_namespaced x)
unfolding find_objects_for_delete
find_objects_for_delete-IsOurs objects is_namespaced d xs tags excluded refs ref e i =
    let (x, m, n, ours, free) =
      find_steps-Found objects is_namespaced d xs tags delete_order _ refs ref e i in
    (x, m, n, ours, λ r j same. cc (excluded_map-In objects is_namespaced r excluded j, same, free))

-- If the discovery client answers, `FindObjectsForDelete` returns, and for a given object that passes the
-- tests with all known kinds it returns a reference to an object that is the same up to the version: the
-- steps of the order leave nothing out.
pub find_objects_for_delete_complete :
    {Obj : Type 0} (objects : ObjectApi Obj) (is_namespaced : GroupVersionKind → Option Bool)
    (d : Discovery) (xs : List Obj) (tags : Bool) (excluded : List ObjectRef)
    (agrs : List ApiGroupResources) (x : Obj)
    → d.api_group_resources ≡ ok agrs
    → In x xs
    → is_deletable objects is_namespaced
        (group_kinds (preferred d (filter_func []) agrs))
        tags
        (excluded_map objects is_namespaced excluded)
        x
      ≡ true
    → (refs : List ObjectRef) × (find_objects_for_delete objects is_namespaced d xs tags excluded
        ≡ ok refs)
      × ((y : Obj) × In (objects.ref_of y) refs
          × (exclusion objects is_namespaced y ≡ exclusion objects is_namespaced x))
unfolding find_objects_for_delete
find_objects_for_delete_complete objects is_namespaced d xs tags excluded agrs x e m h =
    let (refs, r) =
      find_steps-ok objects is_namespaced d xs tags agrs delete_order
        (excluded_map objects is_namespaced excluded) e in
    let known = preferred_gvks-ok objects is_namespaced d (filter_func []) agrs e in
    (
      refs,
      r,
      find_steps_complete objects is_namespaced d xs tags _ x delete_order _ refs known m last_step
          h r,
    )
