-- ===== src/Commands/Collect/Edits.antt =====
-- How the loops of pkg/deployment/commands/utils.go change the map of objects.
use kluctl.Prelude.{
  ◌≡◌, refl, sym, subst, ap, ◌∙◌, inl, inr, Bool, true, false, Option, none, some, List, [], ◌∷◌,
  In, here, there, Map, lookup, lookup-insert, lookup-insert_self, contains, is_empty,
  if◌then◌else◌, ◌==◌, Bool-cases,
}
use kluctl.Types.ObjectRef.{ObjectRef, ref_eq, ref_beq_iff}
use kluctl.Deployment.Apply.{ObjectApi, ApplyUtil}
use kluctl.Commands.Collect.{
  ResultObject, Collected, or_new, edit, each, name_or_ref, set_rendered, set_remote, set_applied,
  set_hook, set_deleted, set_changes, set_new, set_orphan, all_applied, collect_applied,
  collect_new, collect_known, diff_names, get_deleted_objects, get_applied_objects,
  get_applied_hook_objects, get_new_object_refs,
}
use kluctl.Deployment.Diff.{ChangedObject, get_diff_ref}

module _ {Obj : Type 0} (objects : ObjectApi Obj) where
  -- Every entry stands under its reference.
  unfoldable pub RefKeyed : Collected objects → Type 0
  RefKeyed m = (ref : ObjectRef) (o : ResultObject Obj) → lookup ref m ≡ some o → o.ref ≡ ref

  -- The entry of a reference has a flag.
  unfoldable pub Flagged : (ResultObject Obj → Bool) → ObjectRef → Collected objects → Type 0
  Flagged flag ref m = (o : ResultObject Obj) × (lookup ref m ≡ some o) × (flag o ≡ true)

  or_new-ref :
      (ref : ObjectRef) (found : Option (ResultObject Obj))
      → ((o : ResultObject Obj) → found ≡ some o → o.ref ≡ ref)
      → (or_new objects ref found).ref ≡ ref
  or_new-ref ref none h = refl
  or_new-ref ref (some o) h = h o refl

  edit-RefKeyed :
      (key : ObjectRef) (f : ResultObject Obj → ResultObject Obj) (m : Collected objects)
      → ((o : ResultObject Obj) → (f o).ref ≡ o.ref)
      → RefKeyed m
      → RefKeyed (edit objects key f m)
  unfolding RefKeyed edit
  edit-RefKeyed key f m keeps h ref o q =
      let v = f (or_new objects key (lookup key m)) in
      by_key v (key == ref) refl (sym (lookup-insert key ref v m) ∙ q)
        (keeps (or_new objects key (lookup key m)) ∙ or_new-ref key (lookup key m) (h key))
    where
      by_key :
          (v : ResultObject Obj) (b : Bool)
          → key == ref ≡ b
          → (if b then some v else lookup ref m) ≡ some o
          → v.ref ≡ key
          → o.ref ≡ ref
      by_key v true e t k =
          let same : v ≡ o = cc in subst (λ x. x.ref ≡ ref) same (k ∙ (ref_beq_iff key ref).0 e)
      by_key v false e t k = h ref o t

  if-Flagged :
      (flag : ResultObject Obj → Bool) (b : Bool) (v : ResultObject Obj)
      (found : Option (ResultObject Obj))
      → flag v ≡ true
      → (o : ResultObject Obj) × (found ≡ some o) × (flag o ≡ true)
      → (o : ResultObject Obj) × ((if b then some v else found) ≡ some o) × (flag o ≡ true)
  if-Flagged flag true v found h k = (v, refl, h)
  if-Flagged flag false v found h k = k

  -- An edit that keeps a flag keeps it of every reference.
  pub edit-Flagged :
      (flag : ResultObject Obj → Bool) (key ref : ObjectRef)
      (f : ResultObject Obj → ResultObject Obj) (m : Collected objects)
      → ((o : ResultObject Obj) → flag o ≡ true → flag (f o) ≡ true)
      → Flagged flag ref m
      → Flagged flag ref (edit objects key f m)
  unfolding Flagged edit
  edit-Flagged flag key ref f m keeps (o, e, h) = elim (Bool-cases (key == ref)) [
    | inl same ↦
        let at_key : lookup key m ≡ some o =
          subst (λ x. lookup x m ≡ some o) (sym ((ref_beq_iff key ref).0 same)) e in
        let v = f (or_new objects key (lookup key m)) in
        let flagged : flag v ≡ true =
          subst (λ found. flag (f (or_new objects key found)) ≡ true) (sym at_key) (keeps o h) in
        (v, lookup-insert key ref v m ∙ ap (λ b. if b then some v else lookup ref m) same, flagged)
    | inr other ↦
        let v = f (or_new objects key (lookup key m)) in
        (o, lookup-insert key ref v m ∙ ap (λ b. if b then some v else lookup ref m) other ∙ e, h)
  ]

  -- An edit that sets a flag sets it of its reference.
  pub edit-sets :
      (flag : ResultObject Obj → Bool) (key : ObjectRef) (f : ResultObject Obj → ResultObject Obj)
      (m : Collected objects)
      → ((o : ResultObject Obj) → flag (f o) ≡ true)
      → Flagged flag key (edit objects key f m)
  unfolding Flagged edit
  edit-sets flag key f m sets =
      let v = f (or_new objects key (lookup key m)) in (v, lookup-insert_self key v m, sets _)

  -- What the body of a loop keeps, the loop keeps.
  pub each-keeps :
      {A : Type 0} (P : Collected objects → Type 0) (f : A → Collected objects → Collected objects)
      → ((x : A) (m : Collected objects) → P m → P (f x m))
      → (xs : List A) (m : Collected objects) → P m
      → P (each objects f xs m)
  unfolding each
  each-keeps P f step [] m h = h
  each-keeps P f step (x ∷ xs) m h = each-keeps P f step xs (f x m) (step x m h)

  -- What the body establishes for an element and keeps, holds after the loop.
  pub each-reaches :
      {A : Type 0} (P : Collected objects → Type 0) (f : A → Collected objects → Collected objects)
      (a : A)
      → ((x : A) (m : Collected objects) → P m → P (f x m))
      → ((m : Collected objects) → P (f a m))
      → (xs : List A) (m : Collected objects) → In a xs
      → P (each objects f xs m)
  unfolding each
  each-reaches P f a step at [] m i = elim i [ ]
  each-reaches P f _ step at (a ∷ xs) m here = each-keeps P f step xs (f a m) (at m)
  each-reaches P f a step at (x ∷ xs) m (there i) = each-reaches P f a step at xs (f x m) i

  nothing-RefKeyed : RefKeyed []
  unfolding RefKeyed lookup
  nothing-RefKeyed ref o h = cc

  pub set_deleted-RefKeyed :
      (names : Map ObjectRef ObjectRef) (r : ObjectRef) (m : Collected objects)
      → RefKeyed m
      → RefKeyed (set_deleted objects names r m)
  set_deleted-RefKeyed names r m h =
      edit-RefKeyed (name_or_ref objects r (lookup r names)) (λ o. record o { deleted = true }) m
        (λ o. refl) h

  module _ {World : Type 0} where
    collect_applied-RefKeyed :
        (names : Map ObjectRef ObjectRef) (results : List (ApplyUtil Obj World))
        (m : Collected objects)
        → RefKeyed m
        → RefKeyed (collect_applied objects names results m)
    unfolding collect_applied
    collect_applied-RefKeyed names results m h =
        each-keeps RefKeyed (set_deleted objects names) (set_deleted-RefKeyed names)
          (get_deleted_objects results)
          (each objects (set_hook objects) (get_applied_hook_objects results)
            (each objects (set_applied objects) (get_applied_objects results) m))
          (each-keeps RefKeyed (set_hook objects)
            (λ x n k.
              edit-RefKeyed (get_diff_ref objects x) (λ o. record o { hook = true }) n (λ o. refl)
                k)
            (get_applied_hook_objects results)
            (each objects (set_applied objects) (get_applied_objects results) m)
            (each-keeps RefKeyed (set_applied objects)
              (λ x n k.
                edit-RefKeyed (get_diff_ref objects x) (λ o. record o { applied = some x }) n
                  (λ o. refl) k)
              (get_applied_objects results) m h))

    collect_new-RefKeyed :
        (results : List (ApplyUtil Obj World)) (m : Collected objects)
        → RefKeyed m
        → RefKeyed (collect_new objects results m)
    unfolding collect_new
    collect_new-RefKeyed results m h =
        let names = all_applied objects results in
        each-keeps RefKeyed (set_new objects names)
          (λ r n k.
            edit-RefKeyed (name_or_ref objects r (lookup r names))
              (λ o. record o { is_new = if is_empty o.changes then true else o.is_new }) n
              (λ o. refl) k)
          (get_new_object_refs objects results) m h

    pub collect_known-RefKeyed :
        (locals remotes : List Obj) (results : List (ApplyUtil Obj World))
        (changed : List ChangedObject)
        → RefKeyed (collect_known objects locals remotes results changed)
    unfolding collect_known
    collect_known-RefKeyed locals remotes results changed =
        let names = all_applied objects results in
        let m1 = each objects (set_rendered objects) locals [] in
        let m2 = each objects (set_remote objects) remotes m1 in
        let m3 = collect_applied objects (diff_names objects remotes []) results m2 in
        let m4 = each objects (set_changes objects names) changed m3 in
        collect_new-RefKeyed results m4 (
          each-keeps RefKeyed (set_changes objects names)
            (λ x n k.
              edit-RefKeyed (name_or_ref objects x.ref (lookup x.ref names))
                (λ o. record o { changes = x.changes }) n (λ o. refl) k)
            changed m3
            (collect_applied-RefKeyed (diff_names objects remotes []) results m2 (
              each-keeps RefKeyed (set_remote objects)
                (λ x n k.
                  edit-RefKeyed (get_diff_ref objects x) (λ o. record o { remote = some x }) n
                    (λ o. refl) k)
                remotes m1
                (each-keeps RefKeyed (set_rendered objects)
                  (λ x n k.
                    edit-RefKeyed (get_diff_ref objects x) (λ o. record o { rendered = some x }) n
                      (λ o. refl) k)
                  locals [] nothing-RefKeyed))))

  pub set_orphan-RefKeyed :
      (deleted : List ObjectRef) (ref : ObjectRef) (m : Collected objects)
      → RefKeyed m
      → RefKeyed (set_orphan objects deleted ref m)
  set_orphan-RefKeyed deleted ref m h = by (contains deleted ref)
    where
      by :
          (b : Bool)
          → RefKeyed (if b then m else edit objects ref (λ o. record o { orphan = true }) m)
      by true = h
      by false = edit-RefKeyed ref (λ o. record o { orphan = true }) m (λ o. refl) h

  pub set_orphan-Flagged :
      (flag : ResultObject Obj → Bool) (deleted : List ObjectRef) (key ref : ObjectRef)
      (m : Collected objects)
      → ((o : ResultObject Obj) → flag o ≡ true → flag (record o { orphan = true }) ≡ true)
      → Flagged flag ref m
      → Flagged flag ref (set_orphan objects deleted key m)
  set_orphan-Flagged flag deleted key ref m keeps h = by (contains deleted key)
    where
      by :
          (b : Bool)
          → Flagged flag ref (if b then m else edit objects key (λ o. record o { orphan = true }) m)
      by true = h
      by false = edit-Flagged flag key ref (λ o. record o { orphan = true }) m keeps h
