-- ===== src/Commands/Collect/Reported.antt =====
-- Which objects pkg/deployment/commands/utils.go reports.
use kluctl.Prelude.{
  ◌≡◌, refl, sym, subst, ◌⊎◌, inl, inr, Bool, true, false, ◌||◌, Option, some, List, [], ◌∷◌, In,
  here, there, select, select-In, lookup, values, contains, arith, if◌then◌else◌, ◌==◌,
}
use kluctl.Types.ObjectRef.{ObjectRef, ref_eq}
use kluctl.Deployment.Apply.{ObjectApi, ApplyUtil}
use kluctl.Commands.Collect.{
  ResultObject, has_object, Collected, edit, each, set_deleted, set_orphan, is_ours, collect_known,
  collect_objects, insert_sorted, sort,
}
use kluctl.Commands.Collect.Edits.{
  RefKeyed, Flagged, edit-Flagged, edit-sets, each-keeps, each-reaches, set_deleted-RefKeyed,
  collect_known-RefKeyed, set_orphan-RefKeyed, set_orphan-Flagged,
}
use kluctl.Deployment.Diff.{ChangedObject}

module _ {Obj : Type 0} (objects : ObjectApi Obj) where
  head_or_tail :
      (b : Bool) (p o : ResultObject Obj) (found : Option (ResultObject Obj))
      (m : Collected objects)
      → (if b then some p else found) ≡ some o
      → (found ≡ some o → In o (values m))
      → In o (p ∷ values m)
  head_or_tail true p o found m q later =
      let e : p ≡ o = cc in subst (λ x. In x (p ∷ values m)) e here
  head_or_tail false p o found m q later = there (later q)

  lookup-In :
      (ref : ObjectRef) (o : ResultObject Obj) (m : Collected objects)
      → lookup ref m ≡ some o
      → In o (values m)
  unfolding lookup
  lookup-In ref o [] h = cc
  lookup-In ref o ((j, p) ∷ m) h =
      head_or_tail (j == ref) p o (lookup ref m) m h (lookup-In ref o m)

  before_or_after :
      (b : Bool) (o p q : ResultObject Obj) (l rest : List (ResultObject Obj))
      → ((p ≡ o) ⊎ In o (q ∷ l))
      → (((p ≡ o) ⊎ In o l) → In o rest)
      → In o (if b then q ∷ rest else p ∷ q ∷ l)
  before_or_after true o p q l rest (inl e) later = there (later (inl e))
  before_or_after true _ p q l rest (inr here) later = here
  before_or_after true o p q l rest (inr (there i)) later = there (later (inr i))
  before_or_after false o p q l rest (inl e) later = subst (λ x. In o (x ∷ q ∷ l)) (sym e) here
  before_or_after false o p q l rest (inr i) later = there i

  insert_sorted-In :
      (less : ObjectRef → ObjectRef → Bool) (o p : ResultObject Obj) (l : List (ResultObject Obj))
      → ((p ≡ o) ⊎ In o l)
      → In o (insert_sorted objects less p l)
  unfolding insert_sorted
  insert_sorted-In less o p [] (inl e) = subst (λ x. In o (x ∷ [])) (sym e) here
  insert_sorted-In less o p [] (inr i) = elim i [ ]
  insert_sorted-In less o p (q ∷ l) h =
      before_or_after (less q.ref p.ref) o p q l (insert_sorted objects less p l) h
        (insert_sorted-In less o p l)

  sort-In :
      (less : ObjectRef → ObjectRef → Bool) (o : ResultObject Obj) (l : List (ResultObject Obj))
      → In o l
      → In o (sort objects less l)
  unfolding sort
  sort-In less o [] i = elim i [ ]
  sort-In less _ (o ∷ l) here = insert_sorted-In less o o (sort objects less l) (inl refl)
  sort-In less o (p ∷ l) (there i) =
      insert_sorted-In less o p (sort objects less l) (inr (sort-In less o l i))

  -- What has a flag that makes it ours is in the result.
  entry-In :
      (flag : ResultObject Obj → Bool) (less : ObjectRef → ObjectRef → Bool) (ref : ObjectRef)
      (m : Collected objects)
      → ((o : ResultObject Obj) → flag o ≡ true → is_ours objects o ≡ true)
      → RefKeyed objects m
      → Flagged objects flag ref m
      → (o : ResultObject Obj) × In o (sort objects less (select (is_ours objects) (values m)))
        × (o.ref ≡ ref)
        × (flag o ≡ true)
  unfolding RefKeyed Flagged
  entry-In flag less ref m ours keyed (o, e, h) = (
    o,
    sort-In less o _ (select-In (is_ours objects) o (values m) (lookup-In ref o m e) (ours o h)),
    keyed ref o e,
    h,
  )

  or_third : (p q r s : Bool) → r ≡ true → p || q || r || s ≡ true
  or_third p q r s h = ground arith

  all-RefKeyed :
      {World : Type 0} (locals remotes : List Obj) (results : List (ApplyUtil Obj World))
      (changed : List ChangedObject) (orphans deleted : List ObjectRef)
      → RefKeyed objects (
          each objects (set_orphan objects deleted) orphans (
            each objects
              (set_deleted objects [])
              deleted
              (collect_known objects locals remotes results changed)))
  all-RefKeyed locals remotes results changed orphans deleted =
      let m = collect_known objects locals remotes results changed in
      each-keeps objects (RefKeyed objects) (set_orphan objects deleted)
        (set_orphan-RefKeyed objects deleted) orphans
        (each objects (set_deleted objects []) deleted m)
        (each-keeps objects (RefKeyed objects) (set_deleted objects [])
          (set_deleted-RefKeyed objects []) deleted m
          (collect_known-RefKeyed objects locals remotes results changed))

  -- Every deleted reference is that of an object of the command's result that is marked as
  -- deleted.
  pub collect_objects-deleted :
      {World : Type 0} (less : ObjectRef → ObjectRef → Bool) (locals remotes : List Obj)
      (results : List (ApplyUtil Obj World)) (changed : List ChangedObject)
      (orphans deleted : List ObjectRef) (ref : ObjectRef)
      → In ref deleted
      → (o : ResultObject Obj) × In o
          (collect_objects objects less locals remotes results changed orphans deleted)
        × (o.ref ≡ ref)
        × (o.deleted ≡ true)
  unfolding collect_objects lookup
  collect_objects-deleted less locals remotes results changed orphans deleted ref i =
      let m = collect_known objects locals remotes results changed in
      let gone : ResultObject Obj → ResultObject Obj = λ o. record o { deleted = true } in
      let m' = each objects (set_deleted objects []) deleted m in
      let flag : ResultObject Obj → Bool = λ o. o.deleted in
      entry-In flag less ref (each objects (set_orphan objects deleted) orphans m')
        (λ o h. or_third (has_object o.rendered) (has_object o.applied) o.deleted o.orphan h)
        (all-RefKeyed locals remotes results changed orphans deleted)
        (each-keeps objects (Flagged objects flag ref) (set_orphan objects deleted)
          (λ r n h. set_orphan-Flagged objects flag deleted r ref n (λ o k. k) h) orphans m'
          (each-reaches objects (Flagged objects flag ref) (set_deleted objects []) ref
            (λ r n h. edit-Flagged objects flag r ref gone n (λ o k. refl) h)
            (λ n. edit-sets objects flag ref gone n (λ o. refl)) deleted m i))

  or_fourth : (p q r s : Bool) → s ≡ true → p || q || r || s ≡ true
  or_fourth p q r s h = ground arith

  orphan_here :
      (deleted : List ObjectRef) (ref : ObjectRef) (m : Collected objects)
      → contains deleted ref ≡ false
      → Flagged objects (λ o. o.orphan) ref (set_orphan objects deleted ref m)
  orphan_here deleted ref m h =
      subst
        (λ b.
          Flagged objects (λ o. o.orphan) ref
            (if b then m else edit objects ref (λ o. record o { orphan = true }) m))
        (sym h)
        (edit-sets objects (λ o. o.orphan) ref (λ o. record o { orphan = true }) m (λ o. refl))

  -- Every orphan that was not deleted is an object of the command's result that is marked as an
  -- orphan.
  pub collect_objects-orphan :
      {World : Type 0} (less : ObjectRef → ObjectRef → Bool) (locals remotes : List Obj)
      (results : List (ApplyUtil Obj World)) (changed : List ChangedObject)
      (orphans deleted : List ObjectRef) (ref : ObjectRef)
      → In ref orphans
      → contains deleted ref ≡ false
      → (o : ResultObject Obj) × In o
          (collect_objects objects less locals remotes results changed orphans deleted)
        × (o.ref ≡ ref)
        × (o.orphan ≡ true)
  unfolding collect_objects lookup
  collect_objects-orphan less locals remotes results changed orphans deleted ref i h =
      let m = collect_known objects locals remotes results changed in
      let m' = each objects (set_deleted objects []) deleted m in
      let flag : ResultObject Obj → Bool = λ o. o.orphan in
      entry-In flag less ref (each objects (set_orphan objects deleted) orphans m')
        (λ o k. or_fourth (has_object o.rendered) (has_object o.applied) o.deleted o.orphan k)
        (all-RefKeyed locals remotes results changed orphans deleted)
        (each-reaches objects (Flagged objects flag ref) (set_orphan objects deleted) ref
          (λ r n k. set_orphan-Flagged objects flag deleted r ref n (λ o e. refl) k)
          (λ n. orphan_here deleted ref n h) orphans m' i)
