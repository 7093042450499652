-- ===== src/Commands/Validate/Sound.antt =====
-- What a validation without errors says, in pkg/deployment/commands/validate.go.
use kluctl.Prelude.{
  String, ◌≡◌, ◌≢◌, refl, sym, subst, ap, ◌⊎◌, inl, inr, Bool, true, false, Option, none, some,
  List, [], ◌∷◌, ◌++◌, lookup, if◌then◌else◌, Result, ok, >>=-eq-ok,
}
use kluctl.Types.ObjectRef.{ObjectRef, ref_eq}
use kluctl.Deployment.Errors.{init}
use kluctl.Deployment.Apply.Hooks.{get_hook}
use kluctl.Deployment.Remote.{RemoteObjectUtils, new_remote_objects_util, update_remote_objects}
use kluctl.Deployment.Diff.{ChangedObject}
use kluctl.Validation.Flow.{ValidateResult}
use kluctl.Validation.Laws.Verdict.{Verdict}
use kluctl.Commands.{or_error}
use kluctl.Commands.Collect.{ResultObject}
use kluctl.Commands.Validate.{
  Code, Validating, inputs, with_result, validate_found, is_transient, validate_one, validate_all,
  new_apply_util, conclude, all_ready, run_validate,
}

append-left : {A : Type 0} (xs ys : List A) → xs ≢ [] → xs ++ ys ≢ []
append-left [] ys h e = h refl
append-left (x ∷ xs) ys h e = cc

append-right : {A : Type 0} (xs ys : List A) → ys ≢ [] → xs ++ ys ≢ []
append-right [] ys h e = h e
append-right (x ∷ xs) ys h e = cc

-- A result that is not ready has an error.
unfoldable Sound : ValidateResult → Type 0
Sound v = (v.ready ≡ true) ⊎ (v.errors ≢ [])

module _ {Obj World Ignore : Type 0} (code : Code Obj World Ignore)
    (verdict : (o : Obj) (v : ValidateResult)
      → code.validate_object o ≡ ok v
      → Verdict true v) where
  with_result-Sound :
      (ret r : ValidateResult) → Verdict true r → Sound ret → Sound (with_result code ret r)
  unfolding Sound Verdict
  with_result-Sound ret r (inl (ready, none_of)) (inl h) =
      inl (subst (λ b. (if b then ret.ready else false) ≡ true) (sym ready) h)
  with_result-Sound ret r (inl (ready, none_of)) (inr h) = inr (append-left ret.errors r.errors h)
  with_result-Sound ret r (inr (unready, inl never)) h = cc
  with_result-Sound ret r (inr (unready, inr some_of)) h =
      inr (append-right ret.errors r.errors some_of)

  validate_found-Sound :
      (ref : ObjectRef) (s s' : Validating) (found : Option Obj)
      → validate_found code ref s found ≡ ok s'
      → Sound s.ret
      → Sound s'.ret
  unfolding Sound
  validate_found-Sound ref s s' none h k =
      subst (λ x. Sound x.ret) (ok-inj h) (inr (append-right s.ret.errors _ (λ e. cc)))
    where
      ok-inj : {A : Type 0} {a b : A} → ok a ≡ ok b → a ≡ b
      ok-inj q = cc
  validate_found-Sound ref s s' (some x) h k =
      let (r, e, q) = >>=-eq-ok (code.validate_object x) _ h in
      let same : record s { ret = with_result code s.ret r } ≡ s' = cc in
      subst (λ t. Sound t.ret) same (with_result-Sound s.ret r (verdict x r e) k)

  if-Sound :
      (b : Bool) (s s' : Validating) (r : Result Validating)
      → (if b then ok s else r) ≡ ok s'
      → Sound s.ret
      → (r ≡ ok s' → Sound s'.ret)
      → Sound s'.ret
  if-Sound true s s' r h k f = let same : s ≡ s' = cc in subst (λ t. Sound t.ret) same k
  if-Sound false s s' r h k f = f h

  validate_all-Sound :
      (u : RemoteObjectUtils Obj) (l : List Obj) (s s' : Validating)
      → validate_all code u l s ≡ ok s'
      → Sound s.ret
      → Sound s'.ret
  unfolding validate_all validate_one
  validate_all-Sound u [] s s' h k = let same : s ≡ s' = cc in subst (λ t. Sound t.ret) same k
  validate_all-Sound u (o ∷ l) s s' h k =
      let (t, e, q) = >>=-eq-ok (validate_one code u o s) _ h in
      let (hook, a) = get_hook code.env code.texts o (new_apply_util s.dew code.world) in
      let start : Validating = record s { dew = a.dew } in
      let ref = code.env.objects.ref_of o in
      validate_all-Sound u l t s' q (
        if-Sound (is_transient code hook) start t _ e k
          (λ p. validate_found-Sound ref start t (lookup ref u.remote_objects) p k))

  -- If whatever ValidateObject returns is either ready and without errors, or not ready and with
  -- an error, then a validation of a deployment or of a result that returns without any error in
  -- its result says that all is ready.
  pub run_validate_ready :
      (discriminator : String) (c : Option (List Obj)) (r : Option (List (ResultObject Obj)))
      (v : ValidateResult) (drift : List ChangedObject)
      → run_validate code discriminator c r ≡ ok (v, drift)
      → v.errors ≡ []
      → v.ready ≡ true
  unfolding run_validate Sound
  run_validate_ready discriminator c r v drift h none_of =
      let (i, _, h1) = >>=-eq-ok (inputs code c r) _ h in
      let (u, _, h2) =
        >>=-eq-ok
          (or_error (
            update_remote_objects code.remote (some discriminator) i.refs true
              (new_remote_objects_util init)))
          _ h1 in
      let (s, e, h3) =
        >>=-eq-ok
          (validate_all code u i.rendered_objects (record { ret = all_ready code; dew = u.dew })) _
          h2 in
      let same : conclude code i u s ≡ (v, drift) = cc in
      let first : (conclude code i u s).0 ≡ v = ap (λ p. p.0) same in
      elim (validate_all-Sound u i.rendered_objects (record { ret = all_ready code; dew = u.dew }) s
        e (inl refl)) [
          | inl ready ↦ subst (λ x. x.ready ≡ true) first ready
          | inr some_of ↦
              absurd (subst (λ x. x.errors ≢ []) first (append-left s.ret.errors _ some_of) none_of)
        ]
