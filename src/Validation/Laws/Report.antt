-- ===== src/Validation/Laws/Report.antt =====
-- The results of `ValidateObject`, in pkg/validation/validation.go.
use kluctl.Prelude.{
  String, ◌≡◌, refl, sym, ap, ◌∙◌, subst, ◌⊎◌, inl, inr, Bool, true, false, Option, List, [], map,
  Map, ok, err, panicked, Result-cases, >>=-eq-ok, if◌then◌else◌, ◌>>=◌ as ◌>>=r◌,
}
use kluctl.Types.ObjectRef.{ObjectRef}
use kluctl.Utils.Parse.{parse_bool_or_false}
use kluctl.Uo.Nested.{UnstructuredObject}
use kluctl.Uo.K8s.{get_k8s_ref, get_k8s_annotation, get_k8s_annotations_with_regex}
use kluctl.Validation.Flow.{
  ValidateResultEntry, ValidateResult, crashed, go_on, ◌>>=◌, ◌>>◌, getter, add_error, add_warning,
  not_ready,
}
use kluctl.Validation.Flow.Laws.{After}
use kluctl.Validation.Status.{add_not_ready}
use kluctl.Validation.Object.{
  Surroundings, is_result_annotation, add_results, recover, all_is_good, validate_guarded,
  validate_rest, validate_object,
}
use kluctl.Validation.Laws.Kept.{Kept}
use kluctl.Validation.Laws.Verdict.{
  Verdict, Reported, Verdict-add_error, Verdict-Kept, entry_of, with_results, guarded-Holds,
}

-- Unreadable annotations are a panic, which is recovered.
guarded-crashed :
    (env : Surroundings) (ref : ObjectRef) (nre force : Bool) (o : UnstructuredObject)
    → ((e : String) × (get_k8s_annotations_with_regex o is_result_annotation ≡ err e))
      ⊎ (get_k8s_annotations_with_regex o is_result_annotation ≡ panicked)
    → validate_guarded env ref nre o force all_is_good ≡ (crashed, all_is_good)
unfolding validate_guarded ◌>>=◌
guarded-crashed env ref nre force o (inl (e, h)) =
    ap
      (λ r.
        go_on (λ m. add_results ref m >> validate_rest env ref nre o force) (getter r all_is_good))
      h
guarded-crashed env ref nre force o (inr h) =
    ap
      (λ r.
        go_on (λ m. add_results ref m >> validate_rest env ref nre o force) (getter r all_is_good))
      h

good-Verdict : (nre : Bool) (rs : List ValidateResultEntry) → Verdict nre (with_results rs)
unfolding Verdict
good-Verdict nre rs = inl (refl, refl)

raised-Verdict :
    (nre : Bool) (v : ValidateResult) → Reported nre v → Verdict nre (record v { ready = false })
unfolding Verdict Reported
raised-Verdict nre v h = inr (refl, h)

guarded-Verdict :
    (env : Surroundings) (ref : ObjectRef) (nre force : Bool) (o : UnstructuredObject)
    → Verdict nre (recover env.panic_text ref (validate_guarded env ref nre o force all_is_good))
guarded-Verdict env ref nre force o =
    elim (Result-cases (get_k8s_annotations_with_regex o is_result_annotation)) [
      | inl (m, h) ↦
          guarded-Holds (Verdict-Kept nre) env ref force o (raised-Verdict nre) m h
            (good-Verdict nre (map (entry_of ref) m))
      | inr h ↦
          subst (λ r. Verdict nre (recover env.panic_text ref r))
            (sym (guarded-crashed env ref nre force o h))
            (Verdict-add_error nre ref _ all_is_good).0
    ]

if-Verdict :
    (nre b : Bool) (v w : ValidateResult)
    → Verdict nre v
    → Verdict nre w
    → Verdict nre (if b then v else w)
if-Verdict nre true v w h k = h
if-Verdict nre false v w h k = k

-- Whatever the status of an object says, and also where reading it panics: if ValidateObject
-- returns, an object that is ready has no errors, and one that is not ready has an error if what
-- is not ready is to be an error.
pub validate_object-Verdict :
    (env : Surroundings) (nre force : Bool) (o : UnstructuredObject) (v : ValidateResult)
    → validate_object env nre force o ≡ ok v
    → Verdict nre v
unfolding validate_object
validate_object-Verdict env nre force o v h =
    let (ref, _, h') = >>=-eq-ok (get_k8s_ref env.schema o) _ h in
    let (ignore, _, k) = >>=-eq-ok (get_k8s_annotation o "kluctl.io/validate-ignore") _ h' in
    let p = recover env.panic_text ref (validate_guarded env ref nre o force all_is_good) in
    let e : (if parse_bool_or_false ignore then all_is_good else p) ≡ v = cc in
    subst (Verdict nre) e (
      if-Verdict nre (parse_bool_or_false ignore) all_is_good p (good-Verdict nre [])
        (guarded-Verdict env ref nre force o))

results_waiting :
    (nre : Bool) (rs : List ValidateResultEntry) (ref : ObjectRef) (message : String)
    (v : ValidateResult)
    → v.results ≡ rs
    → After (λ w. w.results ≡ rs) (λ w. w.results ≡ rs) (add_not_ready ref nre message v)
      × ((add_not_ready ref nre message v).1.results ≡ rs)
unfolding add_error add_warning not_ready add_not_ready ◌>>◌
results_waiting true rs ref message v h = (h, h)
results_waiting false rs ref message v h = (h, h)

results-kept :
    (nre : Bool) (rs : List ValidateResultEntry)
    → Kept nre (λ v. v.results ≡ rs) (λ v. v.results ≡ rs)
unfolding add_error add_warning
results-kept nre rs = record {
  error = λ ref message v h. (h, h);
  warning = λ ref message v h. h;
  waiting = results_waiting nre rs;
}

-- If an object's reference and annotations can be read and it is not to be ignored, ValidateObject
-- returns, and its results are exactly the entries of the annotations that match, whatever the
-- checks find.
pub validate_object-results :
    (env : Surroundings) (nre force : Bool) (o : UnstructuredObject) (ref : ObjectRef)
    (ignore : Option String) (m : Map String String)
    → get_k8s_ref env.schema o ≡ ok ref
    → get_k8s_annotation o "kluctl.io/validate-ignore" ≡ ok ignore
    → parse_bool_or_false ignore ≡ false
    → get_k8s_annotations_with_regex o is_result_annotation ≡ ok m
    → (v : ValidateResult) × (validate_object env nre force o ≡ ok v)
      × (v.results ≡ map (entry_of ref) m)
unfolding validate_object
validate_object-results env nre force o ref ignore m hr hi hp hm =
    let v = recover env.panic_text ref (validate_guarded env ref nre o force all_is_good) in
    (
      v,
      ap
            (λ r. r >>=r λ ref'. get_k8s_annotation o "kluctl.io/validate-ignore" >>=r λ i. ok (
              if parse_bool_or_false i
              then all_is_good
              else recover env.panic_text ref' (validate_guarded env ref' nre o force all_is_good)))
            hr
          ∙ ap (λ r. r >>=r λ i. ok (if parse_bool_or_false i then all_is_good else v)) hi
          ∙ ap (λ b. ok (if b then all_is_good else v)) hp,
      guarded-Holds (results-kept nre (map (entry_of ref) m)) env ref force o (λ w h. h) m hm refl,
    )
