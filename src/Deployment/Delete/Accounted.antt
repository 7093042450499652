-- ===== src/Deployment/Delete/Accounted.antt =====
-- What becomes of the objects that `DeleteObjects` of pkg/deployment/utils/delete_utils.go is given.
use kluctl.Prelude.{
  String, ◌≡◌, refl, Bool, true, false, ◌&&◌, not, Option, none, some, List, [], ◌∷◌, contains,
  select, In, here, there, In-select, select-In, In-append_left, In-append_right, Bool-cases, inl,
  inr, ◌⊎◌, arith, beq_refl, string_eq, contains-cons_cases, contains-nil,
}
use kluctl.Types.ObjectRef.{ObjectRef, ref_eq}
use kluctl.K8s.{K8sCluster, ApiError, delete_single_object}
use kluctl.Deployment.Errors.{DeploymentErrorsAndWarnings, add_warning, add_api_warnings, had_error}
use kluctl.Deployment.Errors.Laws.{had_error-add_error}
use kluctl.Deployment.Delete.{
  Deletion, is_namespace, names, record_deletion, delete_one, delete_wave, delete_objects,
}

had_error-add_api_warnings :
    (sprintf : String → String) (ref j : ObjectRef) (ws : List String)
    (dew : DeploymentErrorsAndWarnings)
    → had_error j (add_api_warnings sprintf ref ws dew) ≡ had_error j dew
unfolding had_error add_api_warnings add_warning
had_error-add_api_warnings sprintf ref j [] dew = refl
had_error-add_api_warnings sprintf ref j (w ∷ ws) dew =
    had_error-add_api_warnings sprintf ref j ws (add_warning ref (sprintf w) dew)

-- It was deleted, or an error of it was recorded.
abbrev pub Accounted : {World : Type 0} → ObjectRef → Deletion World → Type 0
Accounted ref s = In ref s.deleted ⊎ (had_error ref s.dew ≡ true)

In-names :
    (name : String) (refs : List ObjectRef)
    → contains (names refs) name ≡ true
    → (n : ObjectRef) × In n refs × (n.name ≡ name)
In-names name [] h = cc (contains-nil name)
In-names name (ref ∷ refs) h = elim (contains-cons_cases ref.name name (names refs) h) [
  | inl same ↦ (ref, here, same)
  | inr later ↦ let (n, i, e) = In-names name refs later in (n, there i, e)
]

module _ {Obj World : Type 0} (k : K8sCluster Obj World) (sprintf : String → String) where
  record_deletion-keeps :
      (ref j : ObjectRef) (e : Option ApiError) (s : Deletion World)
      → Accounted j s
      → Accounted j (record_deletion k sprintf ref e s)
  record_deletion-keeps ref j none s (inl i) = inl (In-append_left j s.deleted (ref ∷ []) i)
  record_deletion-keeps ref j none s (inr h) = inr h
  record_deletion-keeps ref j (some e) s (inl i) = inl i
  record_deletion-keeps ref j (some e) s (inr h) =
      inr (ground (arith, h, had_error-add_error ref j e.message s.dew))

  record_deletion-Accounted :
      (ref : ObjectRef) (e : Option ApiError) (s : Deletion World)
      → Accounted ref (record_deletion k sprintf ref e s)
  record_deletion-Accounted ref none s = inl (In-append_right ref s.deleted (ref ∷ []) here)
  record_deletion-Accounted ref (some e) s =
      inr (ground (arith, had_error-add_error ref ref e.message s.dew, beq_refl ref))

  warned-keeps :
      (ref j : ObjectRef) (ws : List String) (s : Deletion World)
      → Accounted j s
      → Accounted j (record s { dew = add_api_warnings sprintf ref ws s.dew })
  warned-keeps ref j ws s (inl i) = inl i
  warned-keeps ref j ws s (inr h) =
      inr (ground (arith, h, had_error-add_api_warnings sprintf ref j ws s.dew))

  delete_one-keeps :
      (do_wait : Bool) (ref j : ObjectRef) (s : Deletion World)
      → Accounted j s
      → Accounted j (delete_one k sprintf do_wait ref s)
  unfolding delete_one
  delete_one-keeps do_wait ref j s h =
      let r = delete_single_object k false (not do_wait) true ref s.world in
      let t = record s { world = r.world } in
      warned-keeps ref j r.warnings (record_deletion k sprintf ref r.error t)
        (record_deletion-keeps ref j r.error t h)

  delete_one-Accounted :
      (do_wait : Bool) (ref : ObjectRef) (s : Deletion World)
      → Accounted ref (delete_one k sprintf do_wait ref s)
  unfolding delete_one
  delete_one-Accounted do_wait ref s =
      let r = delete_single_object k false (not do_wait) true ref s.world in
      let t = record s { world = r.world } in
      warned-keeps ref ref r.warnings (record_deletion k sprintf ref r.error t)
        (record_deletion-Accounted ref r.error t)

  delete_wave-keeps :
      (do_wait : Bool) (refs : List ObjectRef) (j : ObjectRef) (s : Deletion World)
      → Accounted j s
      → Accounted j (delete_wave k sprintf do_wait refs s)
  unfolding delete_wave
  delete_wave-keeps do_wait [] j s h = h
  delete_wave-keeps do_wait (ref ∷ refs) j s h =
      delete_wave-keeps do_wait refs j _ (delete_one-keeps do_wait ref j s h)

  delete_wave-Accounted :
      (do_wait : Bool) (refs : List ObjectRef) (j : ObjectRef) (s : Deletion World)
      → In j refs
      → Accounted j (delete_wave k sprintf do_wait refs s)
  unfolding delete_wave
  delete_wave-Accounted do_wait [] j s i = elim i [ ]
  delete_wave-Accounted do_wait (ref ∷ refs) _ s here =
      delete_wave-keeps do_wait refs ref _ (delete_one-Accounted do_wait ref s)
  delete_wave-Accounted do_wait (ref ∷ refs) j s (there i) =
      delete_wave-Accounted do_wait refs j _ i

-- In whatever order its goroutines run, if each of them does, `DeleteObjects` reports every object it is
-- given as deleted, or records an error of it, or leaves it to the deletion of its namespace, which is
-- one of the objects given.
pub delete_objects-Accounted :
    {Obj World : Type 0} (k : K8sCluster Obj World) (sprintf : String → String)
    (schedule : List ObjectRef → List ObjectRef)
    → ((l : List ObjectRef) (r : ObjectRef) → In r l → In r (schedule l))
    → (refs : List ObjectRef) (dew : DeploymentErrorsAndWarnings) (do_wait : Bool) (w : World)
      (ref : ObjectRef)
    → In ref refs
    → Accounted ref (delete_objects k sprintf schedule refs dew do_wait w)
      ⊎ ((n : ObjectRef) × In n refs
          × (is_namespace n ≡ true)
          × (n.name ≡ ref.namespace)
          × (is_namespace ref ≡ false))
unfolding delete_objects
delete_objects-Accounted k sprintf schedule runs refs dew do_wait w ref i =
    let namespaces = select is_namespace refs in
    let is_left =
      λ (r : ObjectRef). not (is_namespace r) && not (contains (names namespaces) r.namespace) in
    let others = schedule (select is_left refs) in
    let s : Deletion _ = record { deleted = []; dew = dew; world = w } in
    let t = delete_wave k sprintf do_wait (schedule namespaces) s in
    elim (Bool-cases (is_namespace ref)) [
      | inl namespace ↦ inl (
          delete_wave-keeps k sprintf do_wait others ref t (
            delete_wave-Accounted k sprintf do_wait (schedule namespaces) ref s
              (runs namespaces ref (select-In is_namespace ref refs i namespace))))
      | inr other ↦ elim (Bool-cases (contains (names namespaces) ref.namespace)) [
        | inl inside ↦
            let (n, j, e) = In-names ref.namespace namespaces inside in
            let (m, u) = In-select is_namespace n refs j in inr (n, m, u, e, other)
        | inr outside ↦ inl (
            delete_wave-Accounted k sprintf do_wait others ref t (
              runs (select is_left refs) ref
                (select-In is_left ref refs i (ground (arith, other, outside)))))
      ]
    ]
