-- ===== src/Deployment/Apply/Wait.antt =====
-- pkg/deployment/utils/apply_utils.go: `WaitReadiness`, polling an object until it is ready.
use Prim.Native.String.{◌++◌}
use kluctl.Prelude.{
  ◌⊎◌, inl, inr, String, ℕ, zero, suc, ◌+◌, ◌≤◌, ◌<◌, ◌≡◌, ◌≢◌, refl, sym, subst, Bool, true, false,
  not, Option, none, some, List, [], ◌∷◌, is_empty, if◌then◌else◌, nat_beq, arith, beq_refl,
}
use kluctl.Types.ObjectRef.{ObjectRef, ref_eq, to_string}
use kluctl.K8s.{Answer, ApiError, read, outcome, errorf, is_not_found, get_single_object}
use kluctl.Deployment.Errors.{had_error}
use kluctl.Deployment.Errors.Laws.{had_error-add_error}
use kluctl.Deployment.Apply.{
  Selected, tick, timed_out, cancelled, Readiness, Env, ApplyUtil, handle_error, after_request,
}

-- The end of a loop with its result, or none if it has not ended.
abbrev pub Ended : Type 0 → Type 0 → Type 0
Ended Obj World = Option (Bool × ApplyUtil Obj World)

module _ {Obj World : Type 0} (env : Env Obj World) where
  open env use {k, o}

  unfoldable pub handle_errors : ObjectRef → List String → ApplyUtil Obj World → ApplyUtil Obj World
  handle_errors ref [] a = a
  handle_errors ref (message ∷ messages) a =
      handle_errors ref messages (handle_error env ref (errorf (env.sprintf message)) a)

  -- What one poll leads to: an end of the loop with its result, or the `select`.
  unfoldable pub validated :
      ObjectRef
      → Readiness
      → (ApplyUtil Obj World → Ended Obj World)
      → ApplyUtil Obj World
      → Ended Obj World
  unfolding handle_errors
  validated ref v again a =
      if v.ready
      then some (true, a)
      else if not (is_empty v.errors)
      then some (false, handle_errors ref v.errors a)
      else again a

  unfoldable pub examined :
      ObjectRef
      → Option Obj
      → Option ApiError
      → (ApplyUtil Obj World → Ended Obj World)
      → ApplyUtil Obj World
      → Ended Obj World
  unfolding validated
  examined ref object (some err) again a =
      if is_not_found err
      then some (
        false,
        handle_error env ref
            (errorf (to_string ref ++ " disappeared while waiting for it to become ready")) a,
      )
      else some (false, handle_error env ref err a)
  examined ref (some object) none again a = validated ref (env.validate_object object) again a
  examined ref none none again a = some (false, a)

  unfoldable pub poll :
      ObjectRef → (ApplyUtil Obj World → Ended Obj World) → ApplyUtil Obj World → Ended Obj World
  unfolding examined
  poll ref again a =
      let r = get_single_object k ref a.world in
      examined ref r.object r.error again (after_request env ref r a)

  -- The `select` at the end of a round: the next round, or an end with an error.
  unfoldable pub after_select :
      ObjectRef
      → Selected
      → (ApplyUtil Obj World → Ended Obj World)
      → ApplyUtil Obj World
      → Ended Obj World
  after_select ref tick next a = next a
  after_select ref timed_out next a = some (
    false,
    handle_error env ref (errorf ("timed out while waiting for readiness of " ++ to_string ref)) a,
  )
  after_select ref cancelled next a = some (
    false,
    handle_error env ref
        (errorf ("context cancelled while waiting for readiness of " ++ to_string ref)) a,
  )

  -- The loop from a round on, with fuel for a number of rounds.
  unfoldable pub wait_loop : ObjectRef → ℕ → ℕ → ℕ → ApplyUtil Obj World → Ended Obj World
  unfolding poll after_select
  wait_loop ref timeout zero round a = none
  wait_loop ref timeout (suc fuel) round a =
      poll ref
        (after_select ref (env.selected ref timeout round) (wait_loop ref timeout fuel (suc round)))
        a

  -- A timeout of 0 stands for the one of the options.
  abbrev pub timeout_or_default : ℕ → ℕ
  timeout_or_default timeout = if nat_beq timeout 0 then o.readiness_timeout else timeout

  unfoldable pub try_wait_readiness : ObjectRef → ℕ → ApplyUtil Obj World → Ended Obj World
  unfolding wait_loop
  try_wait_readiness ref timeout a =
      let t = timeout_or_default timeout in
      if o.dry_run then some (true, a) else wait_loop ref t (env.rounds ref t) 0 a

  abbrev or_not_ended : ApplyUtil Obj World → Ended Obj World → Bool × ApplyUtil Obj World
  or_not_ended a none = (false, a)
  or_not_ended a (some r) = r

  -- `ApplyUtil.WaitReadiness`; without an error where the fuel is used up, which is no end of the source.
  unfoldable pub wait_readiness : ObjectRef → ℕ → ApplyUtil Obj World → Bool × ApplyUtil Obj World
  unfolding try_wait_readiness
  wait_readiness ref timeout a = or_not_ended a (try_wait_readiness ref timeout a)

  -- A result is true, or comes with an error of the object.
  abbrev pub Explained : ObjectRef → Bool × ApplyUtil Obj World → Type 0
  Explained ref (result, a) = (result ≡ true) ⊎ (had_error ref a.dew ≡ true)

  -- The loop has ended with such a result.
  abbrev Ends : ObjectRef → Ended Obj World → Type 0
  Ends ref e = (r : Bool × ApplyUtil Obj World) × (e ≡ some r) × Explained ref r

  handle_error-had_error :
      (ref : ObjectRef) (e : ApiError) (a : ApplyUtil Obj World)
      → had_error ref (handle_error env ref e a).dew ≡ true
  unfolding handle_error
  handle_error-had_error ref e a =
      ground (arith, had_error-add_error ref ref e.message a.dew, beq_refl ref)

  handle_errors-keeps :
      (ref : ObjectRef) (ms : List String) (a : ApplyUtil Obj World)
      → had_error ref a.dew ≡ true
      → had_error ref (handle_errors ref ms a).dew ≡ true
  unfolding handle_errors
  handle_errors-keeps ref [] a h = h
  handle_errors-keeps ref (m ∷ ms) a h =
      handle_errors-keeps ref ms _ (handle_error-had_error ref (errorf (env.sprintf m)) a)

  handle_errors-had_error :
      (ref : ObjectRef) (ms : List String) (a : ApplyUtil Obj World)
      → is_empty ms ≡ false
      → had_error ref (handle_errors ref ms a).dew ≡ true
  unfolding handle_errors
  handle_errors-had_error ref [] a e = cc
  handle_errors-had_error ref (m ∷ ms) a e =
      handle_errors-keeps ref ms _ (handle_error-had_error ref (errorf (env.sprintf m)) a)

  if-Ends :
      (ref : ObjectRef) (b : Bool) (x y : Ended Obj World)
      → (b ≡ true → Ends ref x)
      → (b ≡ false → Ends ref y)
      → Ends ref (if b then x else y)
  if-Ends ref true x y f g = f refl
  if-Ends ref false x y f g = g refl

  -- An end with an error of the object.
  failed-Ends :
      (ref : ObjectRef) (e : ApiError) (a : ApplyUtil Obj World)
      → Ends ref (some (false, handle_error env ref e a))
  failed-Ends ref e a = (_, refl, inr (handle_error-had_error ref e a))

  poll-Ends :
      (ref : ObjectRef) (again : ApplyUtil Obj World → Ended Obj World) (a : ApplyUtil Obj World)
      → ((b : ApplyUtil Obj World) → Ends ref (again b))
      → Ends ref (poll ref again a)
  unfolding poll get_single_object examined validated
  poll-Ends ref again a f =
      let r = k.call (read ref) a.world in
      go r r.error (after_request env ref (outcome r r.error) a)
    where
      go :
          (r : Answer Obj World) (e : Option ApiError) (b : ApplyUtil Obj World)
          → Ends ref (examined ref (outcome r e).object (outcome r e).error again b)
      go r (some err) b =
          if-Ends ref (is_not_found err) _ _ (λ _. failed-Ends ref _ b) (λ _. failed-Ends ref err b)
      go r none b =
          let v = env.validate_object r.object in
          if-Ends ref v.ready _ _ (λ _. (_, refl, inl refl))
            (λ _.
              if-Ends ref (not (is_empty v.errors)) _ _
                (λ g. (_, refl, inr (handle_errors-had_error ref v.errors b (ground (arith, g)))))
                (λ _. f b))

  after_select-Ends :
      (ref : ObjectRef) (s : Selected) (next : ApplyUtil Obj World → Ended Obj World)
      (a : ApplyUtil Obj World)
      → (s ≡ tick → Ends ref (next a))
      → Ends ref (after_select ref s next a)
  unfolding after_select
  after_select-Ends ref tick next a f = f refl
  after_select-Ends ref timed_out next a f = failed-Ends ref _ a
  after_select-Ends ref cancelled next a f = failed-Ends ref _ a

  -- The loop ends by the round in which the `select` receives no tick.
  wait_loop-Ends :
      (ref : ObjectRef) (timeout last : ℕ)
      → env.selected ref timeout last ≢ tick
      → (fuel round : ℕ) (a : ApplyUtil Obj World) → round ≤ last
      → last < round + fuel
      → Ends ref (wait_loop ref timeout fuel round a)
  unfolding wait_loop
  wait_loop-Ends ref timeout last fires zero round a h h' = absurd (omega arith)
  wait_loop-Ends ref timeout last fires (suc fuel) round a h h' = poll-Ends ref _ a (λ b.
      after_select-Ends ref (env.selected ref timeout round) _ b (λ q.
        let later : round ≢ last =
          λ e. fires (subst (λ i. env.selected ref timeout i ≡ tick) e q) in
        wait_loop-Ends ref timeout last fires fuel (suc round) b (omega arith) (omega arith)))

  Ends-or_not_ended :
      (ref : ObjectRef) (a : ApplyUtil Obj World) (e : Ended Obj World)
      → Ends ref e
      → (e ≡ some (or_not_ended a e)) × Explained ref (or_not_ended a e)
  Ends-or_not_ended ref a e (r, same, x) =
      subst (λ i. (i ≡ some (or_not_ended a i)) × Explained ref (or_not_ended a i)) (sym same)
        (refl, x)

-- If the select of WaitReadiness receives something other than the tick, from the timer or from
-- the context, in one of the rounds that the loop is given, then the loop ends, with what
-- WaitReadiness returns, and that is true, or an error of that object has been recorded.
pub wait_readiness-Explained :
    {Obj World : Type 0} (env : Env Obj World) (ref : ObjectRef) (timeout last : ℕ)
    (a : ApplyUtil Obj World)
    → env.selected ref (timeout_or_default env timeout) last ≢ tick
    → last < env.rounds ref (timeout_or_default env timeout)
    → (try_wait_readiness env ref timeout a ≡ some (wait_readiness env ref timeout a))
      × Explained env ref (wait_readiness env ref timeout a)
unfolding wait_readiness try_wait_readiness
wait_readiness-Explained env ref timeout last a fires h =
    let t = timeout_or_default env timeout in
    Ends-or_not_ended env ref a _ (
      if-Ends env ref env.o.dry_run _ _ (λ _. (_, refl, inl refl))
        (λ _.
          wait_loop-Ends env ref t last fires (env.rounds ref t) 0 a (omega arith) (omega arith)))
