-- ===== src/Validation/Laws/Verdict.antt =====
-- What `ValidateObject` of pkg/validation/validation.go reports of an object.
use kluctl.Prelude.{
  String, ◌≡◌, ◌≢◌, refl, sym, ap, ◌∙◌, subst, ◌⊎◌, inl, inr, Bool, true, false, List, [], ◌∷◌,
  ◌++◌, map, Map, ok,
}
use kluctl.Types.ObjectRef.{ObjectRef}
use kluctl.Uo.Nested.{UnstructuredObject}
use kluctl.Uo.K8s.{get_k8s_annotations_with_regex}
use kluctl.Validation.Flow.{
  ValidateResultEntry, ValidateResult, Flow, next, returned, failed, crashed, go_on, ◌>>=◌, ◌>>◌,
  add_error, add_warning, not_ready, add_result, getter,
}
use kluctl.Validation.Flow.Laws.{After}
use kluctl.Validation.Status.{add_not_ready}
use kluctl.Validation.Object.{
  Surroundings, is_result_annotation, add_results, recover, all_is_good, validate_guarded,
  validate_rest,
}
use kluctl.Validation.Laws.Kept.{Kept}
use kluctl.Validation.Laws.Object.{validate_rest-Keep}

-- A ready object has no errors. An object that is not ready has one, if that is to be an error.
unfoldable pub Verdict : Bool → ValidateResult → Type 0
Verdict nre v =
    ((v.ready ≡ true) × (v.errors ≡ [])) ⊎ ((v.ready ≡ false) × ((nre ≡ false) ⊎ (v.errors ≢ [])))

unfoldable pub Reported : Bool → ValidateResult → Type 0
Reported nre v = (nre ≡ false) ⊎ (v.errors ≢ [])

append_nonempty : {A : Type 0} (xs : List A) (x : A) → xs ++ x ∷ [] ≢ []
append_nonempty [] x h = cc
append_nonempty (y ∷ xs) x h = cc

pub Verdict-add_error :
    (nre : Bool) (ref : ObjectRef) (message : String) (v : ValidateResult)
    → Verdict nre (add_error ref message v).1 × Reported nre (add_error ref message v).1
unfolding Verdict Reported add_error
Verdict-add_error nre ref message v =
    (inr (refl, inr (append_nonempty v.errors _)), inr (append_nonempty v.errors _))

Verdict-add_not_ready :
    (nre : Bool) (ref : ObjectRef) (message : String) (v : ValidateResult)
    → After (Verdict nre) (Reported nre) (add_not_ready ref nre message v)
      × Reported nre (add_not_ready ref nre message v).1
unfolding Verdict Reported add_error add_warning not_ready add_not_ready ◌>>◌
Verdict-add_not_ready true ref message v =
    (inr (refl, inr (append_nonempty v.errors _)), inr (append_nonempty v.errors _))
Verdict-add_not_ready false ref message v = (inr (refl, inl refl), inl refl)

pub Verdict-Kept : (nre : Bool) → Kept nre (Verdict nre) (Reported nre)
unfolding Verdict add_warning
Verdict-Kept nre = record {
  error = λ ref message v h. Verdict-add_error nre ref message v;
  warning = λ ref message v h. h;
  waiting = λ ref message v h. Verdict-add_not_ready nre ref message v;
}

abbrev pub entry_of : ObjectRef → String × String → ValidateResultEntry
entry_of ref e = record { ref = ref; annotation = e.0; message = e.1 }

abbrev pub with_results : List ValidateResultEntry → ValidateResult
with_results rs = record { ready = true; warnings = []; errors = []; results = rs }

append_one : {A : Type 0} (xs : List A) (x : A) (ys : List A) → (xs ++ x ∷ []) ++ ys ≡ xs ++ x ∷ ys
append_one [] x ys = refl
append_one (y ∷ xs) x ys = ap (λ l. y ∷ l) (append_one xs x ys)

append_none : {A : Type 0} (xs : List A) → xs ++ [] ≡ xs
append_none [] = refl
append_none (x ∷ xs) = ap (λ l. x ∷ l) (append_none xs)

add_results_lem :
    (ref : ObjectRef) (m : Map String String) (rs : List ValidateResultEntry)
    → add_results ref m (with_results rs) ≡ (next tt, with_results (rs ++ map (entry_of ref) m))
unfolding add_results add_result ◌>>◌
add_results_lem ref [] rs = ap (λ l. (next tt, with_results l)) (sym (append_none rs))
add_results_lem ref ((k, v) ∷ m) rs =
    add_results_lem ref m (rs ++ entry_of ref (k, v) ∷ [])
    ∙ ap (λ l. (next tt, with_results l))
        (append_one rs (entry_of ref (k, v)) (map (entry_of ref) m))

-- The guarded part is the code behind the loop, from the results of the loop.
guarded_lem :
    (env : Surroundings) (ref : ObjectRef) (nre force : Bool) (o : UnstructuredObject)
    (m : Map String String)
    → get_k8s_annotations_with_regex o is_result_annotation ≡ ok m
    → validate_guarded env ref nre o force all_is_good
      ≡ validate_rest env ref nre o force (with_results (map (entry_of ref) m))
unfolding validate_guarded ◌>>=◌ ◌>>◌
guarded_lem env ref nre force o m h =
    ap
      (λ r.
        go_on (λ m'. add_results ref m' >> validate_rest env ref nre o force)
          (getter r all_is_good))
      h
    ∙ ap (go_on (λ _. validate_rest env ref nre o force)) (add_results_lem ref m [])

module _ {nre : Bool} {Holds Raised : ValidateResult → Type 0} (kept : Kept nre Holds Raised)
    (env : Surroundings) (ref : ObjectRef) (force : Bool) (o : UnstructuredObject)
    (recovered : (v : ValidateResult) → Raised v → Holds (record v { ready = false })) where
  recover-Holds :
      (r : Flow (Unit {0}) × ValidateResult)
      → After Holds Raised r
      → Holds (recover env.panic_text ref r)
  recover-Holds (next a, v) h = h
  recover-Holds (returned, v) h = h
  recover-Holds (failed, v) h = recovered v h
  recover-Holds (crashed, v) h = (kept.error ref _ v h).0

  rest-Holds :
      (rs : List ValidateResultEntry)
      → Holds (with_results rs)
      → Holds (recover env.panic_text ref (validate_rest env ref nre o force (with_results rs)))
  rest-Holds rs h =
      recover-Holds (validate_rest env ref nre o force (with_results rs))
        ((validate_rest-Keep kept env ref o force).keep (with_results rs) h)

  pub guarded-Holds :
      (m : Map String String)
      → get_k8s_annotations_with_regex o is_result_annotation ≡ ok m
      → Holds (with_results (map (entry_of ref) m))
      → Holds (recover env.panic_text ref (validate_guarded env ref nre o force all_is_good))
  guarded-Holds m h start =
      subst (λ r. Holds (recover env.panic_text ref r)) (sym (guarded_lem env ref nre force o m h))
        (rest-Holds (map (entry_of ref) m) start)
