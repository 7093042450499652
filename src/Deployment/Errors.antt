-- ===== src/Deployment/Errors.antt =====
-- pkg/deployment/utils/errors_holder.go: the errors and warnings of a command, by object. The source
-- takes a mutex around each method, so each is one step.
pub mod Laws
use text.Mathlib.Text.{◌==◌ as str_eq}
use kluctl.Prelude.{
  String, ◌≡◌, ◌↔◌, Bool, true, false, ◌&&◌, Option, none, some, List, [], ◌∷◌, ◌++◌, Map, lookup,
  insert, has, add, values, Eq, arith, eq_iff, map,
}
use kluctl.Types.ObjectRef.{ObjectRef, ref_eq, ref_beq, ref_beq_iff}

-- `result.DeploymentError`
pub record DeploymentError : Type 0 where
  pub ref : ObjectRef
  pub message : String

abbrev pub error_beq : DeploymentError → DeploymentError → Bool
error_beq a b = ref_beq a.ref b.ref && str_eq a.message b.message

pub error_beq_iff : (a b : DeploymentError) → (error_beq a b ≡ true) ↔ (a ≡ b)
error_beq_iff a b = ground (arith, ref_beq_iff a.ref b.ref, eq_iff a.message b.message)

instance abbrev pub error_eq : Eq DeploymentError
error_eq = record { beq = error_beq; beq_iff = error_beq_iff }

-- `map[k8s.ObjectRef]map[result.DeploymentError]bool`; the inner maps hold `true` and are sets.
abbrev pub ErrorMap : Type 0
ErrorMap = Map ObjectRef (List DeploymentError)

pub record DeploymentErrorsAndWarnings : Type 0 where
  pub errors : ErrorMap
  pub warnings : ErrorMap

unfoldable pub init : DeploymentErrorsAndWarnings
init = record { errors = []; warnings = [] }

-- The set of one object, made on first use, with one more entry.
abbrev pub extended : DeploymentError → Option (List DeploymentError) → List DeploymentError
extended de none = de ∷ []
extended de (some s) = add de s

unfoldable pub add_entry : ObjectRef → DeploymentError → ErrorMap → ErrorMap
add_entry ref de m = insert ref (extended de (lookup ref m)) m

unfoldable pub add_warning :
    ObjectRef → String → DeploymentErrorsAndWarnings → DeploymentErrorsAndWarnings
add_warning ref message dew = record dew {
  warnings = add_entry ref (record { ref = ref; message = message }) dew.warnings;
}

unfoldable pub add_error :
    ObjectRef → String → DeploymentErrorsAndWarnings → DeploymentErrorsAndWarnings
add_error ref message dew = record dew {
  errors = add_entry ref (record { ref = ref; message = message }) dew.errors;
}

-- A warning's text is used as a format without arguments; `sprintf` is what becomes of it.
unfoldable pub add_api_warnings :
    (String → String)
    → ObjectRef
    → List String
    → DeploymentErrorsAndWarnings
    → DeploymentErrorsAndWarnings
add_api_warnings sprintf ref [] dew = dew
add_api_warnings sprintf ref (w ∷ ws) dew =
    add_api_warnings sprintf ref ws (add_warning ref (sprintf w) dew)

unfoldable pub had_error : ObjectRef → DeploymentErrorsAndWarnings → Bool
had_error ref dew = has ref dew.errors

unfoldable pub all_entries : ErrorMap → List DeploymentError
all_entries [] = []
all_entries ((ref, s) ∷ m) = s ++ all_entries m

unfoldable pub get_errors_list : DeploymentErrorsAndWarnings → List DeploymentError
unfolding all_entries
get_errors_list dew = all_entries dew.errors

unfoldable pub get_warnings_list : DeploymentErrorsAndWarnings → List DeploymentError
unfolding all_entries
get_warnings_list dew = all_entries dew.warnings

unfoldable pub get_plain_errors_list : DeploymentErrorsAndWarnings → List String
unfolding get_errors_list
get_plain_errors_list dew = map (λ e. e.message) (get_errors_list dew)
