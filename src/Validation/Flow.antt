-- ===== src/Validation/Flow.antt =====
-- The results that pkg/validation/validation.go collects, and the ways in which its code goes on.
pub mod Laws
use kluctl.Prelude.{
  String, Bool, true, false, Option, none, some, List, [], ◌∷◌, ◌++◌, Result, ok, err, panicked,
}
use kluctl.Types.ObjectRef.{ObjectRef}
use kluctl.Deployment.Errors.{DeploymentError}

-- `result.ValidateResultEntry`
pub record ValidateResultEntry : Type 0 where
  pub ref : ObjectRef
  pub annotation : String
  pub message : String

-- `result.ValidateResult`, without its id, its times and the drift.
pub record ValidateResult : Type 0 where
  pub ready : Bool
  pub warnings : List DeploymentError
  pub errors : List DeploymentError
  pub results : List ValidateResultEntry

-- What a piece of the function does: it goes on with a value, it returns from the function, it raises
-- `validationFailed`, or it panics otherwise.
pub data Flow (A : Type 0) : Type 0 where
  next : A → Flow A
  returned : Flow A
  failed : Flow A
  crashed : Flow A

abbrev pub M : Type 0 → Type 0
M A = ValidateResult → Flow A × ValidateResult

abbrev pub go_on : {A B : Type 0} → (A → M B) → Flow A × ValidateResult → Flow B × ValidateResult
go_on f (next a, v) = f a v
go_on f (returned, v) = (returned, v)
go_on f (failed, v) = (failed, v)
go_on f (crashed, v) = (crashed, v)

infixl 5 ◌>>=◌ ◌>>◌
unfoldable pub ◌>>=◌ : {A B : Type 0} → M A → (A → M B) → M B
◌>>=◌ m f v = go_on f (m v)

unfoldable pub ◌>>◌ : {B : Type 0} → M (Unit {0}) → M B → M B
◌>>◌ m n v = go_on (λ _. n) (m v)

abbrev pub pure : {A : Type 0} → A → M A
pure a v = (next a, v)

abbrev pub skip : M (Unit {0})
skip v = (next tt, v)

abbrev pub when : Bool → M (Unit {0}) → M (Unit {0})
when true m = m
when false m = skip

-- `return`
abbrev pub leave : {A : Type 0} → M A
leave v = (returned, v)

-- `panic(&validationFailed{})`
abbrev pub raise : {A : Type 0} → M A
raise v = (failed, v)

abbrev pub crash : {A : Type 0} → M A
crash v = (crashed, v)

-- A call that may panic, and whose errors the code handles or drops.
abbrev pub call : {A : Type 0} → Result A → M (Result A)
call (ok a) v = (next (ok a), v)
call (err e) v = (next (err e), v)
call panicked v = (crashed, v)

-- A call of a getter that returns no error.
abbrev pub getter : {A : Type 0} → Result A → M A
getter (ok a) v = (next a, v)
getter (err e) v = (crashed, v)
getter panicked v = (crashed, v)

-- `v, ok, _ := …`
abbrev pub found_of : {A : Type 0} → Result (Option A) → M (Option A)
found_of (ok found) v = (next found, v)
found_of (err e) v = (next none, v)
found_of panicked v = (crashed, v)

unfoldable pub add_error : ObjectRef → String → M (Unit {0})
add_error ref message v = (
  next tt,
  record v { errors = v.errors ++ (record { ref = ref; message = message }) ∷ []; ready = false },
)

unfoldable pub add_warning : ObjectRef → String → M (Unit {0})
add_warning ref message v =
    (next tt, record v { warnings = v.warnings ++ (record { ref = ref; message = message }) ∷ [] })

unfoldable pub not_ready : M (Unit {0})
not_ready v = (next tt, record v { ready = false })

unfoldable pub add_result : ValidateResultEntry → M (Unit {0})
add_result entry v = (next tt, record v { results = v.results ++ entry ∷ [] })
