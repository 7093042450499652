-- ===== src/Deployment/Errors/Laws.antt =====
-- What errors_holder.go promises: an error that was added is found under its object and in the list.
use kluctl.Prelude.{
  String, ◌≡◌, ◌↔◌, subst, contains-cons_cases, contains-cons_self, contains-cons_of, keys, refl,
  sym, ap, ◌∙◌, ◌≢◌, Bool, true, ◌||◌, Option, none, some, List, [], ◌∷◌, ◌++◌, lookup, insert, has,
  add, contains, contains-append, contains-add, has-insert, arith, Bool-cases, inl, inr, ◌==◌,
  contains-nil,
}
use kluctl.Types.ObjectRef.{ObjectRef, ref_eq, ref_beq_iff}
use kluctl.Deployment.Errors.{
  DeploymentError, error_eq, ErrorMap, DeploymentErrorsAndWarnings, add_entry, extended, add_error,
  had_error, all_entries, get_errors_list, get_warnings_list,
}

or_swap : (a b c : Bool) → (a || (b || c)) ≡ (b || (a || c))
or_swap a b c = ground arith

or_true : (a : Bool) → (a || true) ≡ true
or_true a = ground arith

or_assoc : (a b c : Bool) → ((a || b) || c) ≡ (a || (b || c))
or_assoc a b c = ground arith

-- Every entry stands under its own object, and no object has an empty set.
abbrev Filed : ObjectRef → List DeploymentError → Type 0
Filed ref [] = Unit
Filed ref (e ∷ s) = (e.ref ≡ ref) × Filed ref s

abbrev pub IsValid : ErrorMap → Type 0
IsValid [] = Unit
IsValid ((ref, s) ∷ m) = Filed ref s × (s ≢ []) × IsValid m

Filed-append :
    (ref : ObjectRef) (s t : List DeploymentError) → Filed ref s → Filed ref t → Filed ref (s ++ t)
Filed-append ref [] t h k = k
Filed-append ref (e ∷ s) t h k = (h.0, Filed-append ref s t h.1 k)

Filed-add :
    (ref : ObjectRef) (de : DeploymentError) (s : List DeploymentError)
    → de.ref ≡ ref
    → Filed ref s
    → Filed ref (add de s)
unfolding add
Filed-add ref de s e h = elim (Bool-cases (contains s de)) [
  | inl old ↦ rw old h
  | inr new ↦ rw new (Filed-append ref s (de ∷ []) h (e, tt))
]

add-ne_nil : (de : DeploymentError) (s : List DeploymentError) → s ≢ [] → add de s ≢ []
unfolding add
add-ne_nil de [] h e = h refl
add-ne_nil de (x ∷ s) h e = ground arith

insert-IsValid :
    (ref : ObjectRef) (s : List DeploymentError) (m : ErrorMap)
    → Filed ref s
    → s ≢ []
    → IsValid m
    → IsValid (insert ref s m)
unfolding insert
insert-IsValid ref s [] f ne h = (f, ne, tt)
insert-IsValid ref s ((r, t) ∷ m) f ne h = elim (Bool-cases (r == ref)) [
  | inl same ↦ rw same (f, ne, h.2)
  | inr other ↦ rw other (h.0, h.1, insert-IsValid ref s m f ne h.2)
]

lookup-Filed :
    (ref : ObjectRef) (s : List DeploymentError) (m : ErrorMap)
    → IsValid m
    → lookup ref m ≡ some s
    → Filed ref s × (s ≢ [])
unfolding lookup
lookup-Filed ref s [] h e = cc
lookup-Filed ref s ((r, t) ∷ m) h e = elim (Bool-cases (r == ref)) [
  | inl same ↦
      let same' = (ref_beq_iff r ref).0 same in
      let e' = rw same at e in
      let here : t ≡ s = cc in
      subst (λ u. Filed ref u × (u ≢ [])) here (subst (λ q. Filed q t) same' h.0, h.1)
  | inr other ↦ lookup-Filed ref s m h.2 (rw other at e)
]

-- Adding an entry of an object under that object, as `AddError` and `AddWarning` do, keeps every entry
-- filed under its own object, and leaves no object with an empty set.
add_entry-IsValid :
    (ref : ObjectRef) (de : DeploymentError) (m : ErrorMap)
    → de.ref ≡ ref
    → IsValid m
    → IsValid (add_entry ref de m)
unfolding add_entry
add_entry-IsValid ref de m e h = go (lookup ref m) refl
  where
    go :
        (r : Option (List DeploymentError))
        → lookup ref m ≡ r
        → IsValid (insert ref (extended de r) m)
    go none q = insert-IsValid ref (de ∷ []) m (e, tt) (λ n. cc) h
    go (some s) q =
        let (f, ne) = lookup-Filed ref s m h q in
        insert-IsValid ref (add de s) m (Filed-add ref de s e f) (add-ne_nil de s ne) h

-- `HadError` after `AddError`: for the object of the error, and as before for all others.
pub had_error-add_error :
    (ref j : ObjectRef) (message : String) (dew : DeploymentErrorsAndWarnings)
    → had_error j (add_error ref message dew) ≡ (ref == j || had_error j dew)
unfolding had_error add_error add_entry
had_error-add_error ref j message dew = has-insert ref j _ dew.errors

-- The entries of one set, after one more.
contains-extended :
    (de e : DeploymentError) (r : Option (List DeploymentError)) (s : List DeploymentError)
    → r ≡ some s
    → contains (extended de r) e ≡ (de == e || contains s e)
contains-extended de e none s h = cc
contains-extended de e (some t) s h = let q : t ≡ s = cc in rw (contains-add de e t, q)

contains-insert-extended :
    (ref : ObjectRef) (de e : DeploymentError) (m : ErrorMap) (o : Option (List DeploymentError))
    → lookup ref m ≡ o
    → contains (all_entries (insert ref (extended de o) m)) e
      ≡ (de == e || contains (all_entries m) e)
unfolding all_entries insert lookup
contains-insert-extended ref de e [] none q = unfold contains in refl
contains-insert-extended ref de e [] (some s) q = cc
contains-insert-extended ref de e ((r, t) ∷ m) o q = elim (Bool-cases (r == ref)) [
  | inl same ↦
      rw
        (
          same,
          contains-append (extended de o) (all_entries m) e,
          contains-append t (all_entries m) e,
          contains-extended de e o t (sym (rw same at q)),
        )
        (or_assoc (de == e) (contains t e) (contains (all_entries m) e))
  | inr other ↦
      rw (other, contains-append t _ e)
        (rw
          (
            contains-append t (all_entries m) e,
            contains-insert-extended ref de e m o (rw other at q),
          )
          (or_swap (contains t e) (de == e) (contains (all_entries m) e)))
]

contains-add_entry :
    (ref : ObjectRef) (de e : DeploymentError) (m : ErrorMap)
    → contains (all_entries (add_entry ref de m)) e ≡ (de == e || contains (all_entries m) e)
unfolding add_entry
contains-add_entry ref de e m = contains-insert-extended ref de e m (lookup ref m) refl

-- `GetErrorsList` after `AddError` holds what it held before and the new error, and nothing else; the
-- list of warnings is the same.
pub get_errors_list-add_error :
    (ref : ObjectRef) (message : String) (e : DeploymentError) (dew : DeploymentErrorsAndWarnings)
    → (contains (get_errors_list (add_error ref message dew)) e
        ≡ ((record { ref = ref; message = message }) == e || contains (get_errors_list dew) e))
      × (get_warnings_list (add_error ref message dew) ≡ get_warnings_list dew)
unfolding get_errors_list get_warnings_list add_error
get_errors_list-add_error ref message e dew =
    (contains-add_entry ref (record { ref = ref; message = message }) e dew.errors, refl)

contains-Filed :
    (ref : ObjectRef) (s : List DeploymentError) (e : DeploymentError)
    → Filed ref s
    → contains s e ≡ true
    → e.ref ≡ ref
contains-Filed ref [] e f h = cc (contains-nil e)
contains-Filed ref (x ∷ s) e f h = elim (contains-cons_cases x e s h) [
  | inl same ↦ cc (f.0, ap (λ (d : DeploymentError). d.ref) same)
  | inr later ↦ contains-Filed ref s e f.1 later
]

-- The head of a nonempty set is in the list, and stands under its object.
head_listed :
    (r : ObjectRef) (t : List DeploymentError) (m : ErrorMap)
    → Filed r t
    → t ≢ []
    → (e : DeploymentError) × (contains (t ++ all_entries m) e ≡ true) × (e.ref ≡ r)
head_listed r [] m f ne = absurd (ne refl)
head_listed r (x ∷ t) m f ne = (x, contains-cons_self x _, f.0)

listed :
    (ref : ObjectRef) (m : ErrorMap)
    → IsValid m
    → has ref m ≡ true
    → (e : DeploymentError) × (contains (all_entries m) e ≡ true) × (e.ref ≡ ref)
unfolding has all_entries
listed ref [] h k = cc (contains-nil ref)
listed ref ((r, t) ∷ m) h k = elim (contains-cons_cases r ref (keys m) k) [
  | inl same ↦
      subst (λ q. (e : DeploymentError) × (contains (t ++ all_entries m) e ≡ true) × (e.ref ≡ q))
        same (head_listed r t m h.0 h.1)
  | inr later ↦
      let (e, c, q) = listed ref m h.2 later in
      (e, rw (contains-append t (all_entries m) e, c) (or_true (contains t e)), q)
]

found :
    (ref : ObjectRef) (m : ErrorMap) (e : DeploymentError)
    → IsValid m
    → contains (all_entries m) e ≡ true
    → e.ref ≡ ref
    → has ref m ≡ true
unfolding has all_entries
found ref [] e h c q = cc (contains-nil e)
found ref ((r, t) ∷ m) e h c q = elim (Bool-cases (contains t e)) [
  | inl here ↦ rw (sym (contains-Filed r t e h.0 here) ∙ q) (contains-cons_self ref (keys m))
  | inr there ↦
      contains-cons_of r ref (keys m)
        (found ref m e h.2 (rw (contains-append t (all_entries m) e, there) at c) q)
]

-- If every error is filed under its own object, and no object has an empty set of errors, HadError
-- holds of an object exactly if the list of errors has one of that object.
pub had_error_iff :
    (ref : ObjectRef) (dew : DeploymentErrorsAndWarnings)
    → IsValid dew.errors
    → (had_error ref dew ≡ true)
      ↔ ((e : DeploymentError) × (contains (get_errors_list dew) e ≡ true) × (e.ref ≡ ref))
unfolding had_error get_errors_list
had_error_iff ref dew h = (listed ref dew.errors h, λ t. found ref dew.errors t.0 h t.1 t.2)
