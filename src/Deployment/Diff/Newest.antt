-- ===== src/Deployment/Diff/Newest.antt =====
-- Which remote objects pkg/deployment/utils/diff_utils.go compares with.
use kluctl.Prelude.{
  ℕ, ◌≤◌, ◌≡◌, refl, sym, subst, ap, ◌∙◌, Bool, true, false, Option, none, some, List, [], ◌∷◌, In,
  here, there, Map, lookup, lookup-insert, lookup-insert_self, insert, arith, if◌then◌else◌, ◌==◌,
}
use kluctl.Types.ObjectRef.{ObjectRef, ref_eq, ref_beq_iff}
use kluctl.Deployment.Diff.{
  Differ, get_diff_ref, is_newer, put_newest, calc_remote_objects_for_diff,
}

module _ {Obj Ignore : Type 0} (d : Differ Obj Ignore) where
  open d use {objects, creation_time}

  -- A reference has an object that is at least so new.
  unfoldable pub NewAs : ℕ → ObjectRef → Map ObjectRef Obj → Type 0
  NewAs t ref m = (y : Obj) × (lookup ref m ≡ some y) × (t ≤ creation_time y)

  -- What is there when the new object is not newer is at least as new.
  NewAs-old :
      (o : Obj) (ref : ObjectRef) (m : Map ObjectRef Obj) (old : Option Obj)
      → lookup ref m ≡ old
      → is_newer d o old ≡ false
      → NewAs (creation_time o) ref m
  unfolding NewAs
  NewAs-old o ref m none e h = ground arith
  NewAs-old o ref m (some y) e h = (y, e, ground arith)

  if-NewAs :
      (o : Obj) (ref : ObjectRef) (m : Map ObjectRef Obj) (b : Bool)
      → is_newer d o (lookup ref m) ≡ b
      → NewAs (creation_time o) ref (if b then insert ref o m else m)
  unfolding NewAs
  if-NewAs o ref m true h = (o, lookup-insert_self ref o m, omega arith)
  if-NewAs o ref m false h = NewAs-old o ref m (lookup ref m) refl h

  put_newest-NewAs :
      (o : Obj) (m : Map ObjectRef Obj)
      → NewAs (creation_time o) (get_diff_ref objects o) (put_newest d o m)
  unfolding put_newest
  put_newest-NewAs o m =
      let ref = get_diff_ref objects o in if-NewAs o ref m (is_newer d o (lookup ref m)) refl

  -- An insertion where the object that is there is no newer keeps every reference as new.
  insert-NewAs :
      (t : ℕ) (o : Obj) (key ref : ObjectRef) (m : Map ObjectRef Obj)
      → is_newer d o (lookup key m) ≡ true
      → NewAs t ref m
      → (b : Bool) → key == ref ≡ b
      → NewAs t ref (insert key o m)
  unfolding NewAs
  insert-NewAs t o key ref m newer (y, e, h) true same =
      let at_key : lookup key m ≡ some y =
        subst (λ r. lookup r m ≡ some y) (sym ((ref_beq_iff key ref).0 same)) e in
      let later : is_newer d o (some y) ≡ true =
        subst (λ old. is_newer d o old ≡ true) at_key newer in
      (
        o,
        lookup-insert key ref o m ∙ ap (λ b. if b then some o else lookup ref m) same,
        ground (arith, later),
      )
  insert-NewAs t o key ref m newer (y, e, h) false other =
      (y, lookup-insert key ref o m ∙ ap (λ b. if b then some o else lookup ref m) other ∙ e, h)

  kept-NewAs :
      (t : ℕ) (o : Obj) (ref : ObjectRef) (m : Map ObjectRef Obj) (b : Bool)
      → is_newer d o (lookup (get_diff_ref objects o) m) ≡ b
      → NewAs t ref m
      → NewAs t ref (if b then insert (get_diff_ref objects o) o m else m)
  kept-NewAs t o ref m true newer h =
      let key = get_diff_ref objects o in insert-NewAs t o key ref m newer h (key == ref) refl
  kept-NewAs t o ref m false newer h = h

  NewAs-calc_remote_objects_for_diff :
      (t : ℕ) (ref : ObjectRef) (l : List Obj) (m : Map ObjectRef Obj)
      → NewAs t ref m
      → NewAs t ref (calc_remote_objects_for_diff d l m)
  unfolding calc_remote_objects_for_diff put_newest
  NewAs-calc_remote_objects_for_diff t ref [] m h = h
  NewAs-calc_remote_objects_for_diff t ref (o ∷ l) m h =
      NewAs-calc_remote_objects_for_diff t ref l (put_newest d o m)
        (kept-NewAs t o ref m (is_newer d o (lookup (get_diff_ref objects o) m)) refl h)

-- For each of the remote objects, the object that calcRemoteObjectsForDiff keeps under its diff
-- reference is at least as new, in whatever order they come.
pub calc_remote_objects_for_diff-NewAs :
    {Obj Ignore : Type 0} (d : Differ Obj Ignore) (o : Obj) (l : List Obj) (m : Map ObjectRef Obj)
    → In o l
    → NewAs d (d.creation_time o) (get_diff_ref d.objects o) (calc_remote_objects_for_diff d l m)
unfolding calc_remote_objects_for_diff
calc_remote_objects_for_diff-NewAs d o [] m i = elim i [ ]
calc_remote_objects_for_diff-NewAs d _ (o ∷ l) m here =
    NewAs-calc_remote_objects_for_diff d (d.creation_time o) (get_diff_ref d.objects o) l
      (put_newest d o m) (put_newest-NewAs d o m)
calc_remote_objects_for_diff-NewAs d o (p ∷ l) m (there i) =
    calc_remote_objects_for_diff-NewAs d o l (put_newest d p m) i
