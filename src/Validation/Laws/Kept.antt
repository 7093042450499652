-- ===== src/Validation/Laws/Kept.antt =====
-- What every check of pkg/validation/validation.go keeps of the results it collects.
use Prim.Native.String.{◌++◌ as str_append}
use text.Mathlib.Text.{◌==◌ as str_eq}
use kluctl.Prelude.{
  String, ◌≡◌, Bool, true, false, not, ◌||◌, Option, none, some, List, [], ◌∷◌, if◌then◌else◌, ℤ,
  wrap_int64,
}
use kluctl.Types.ObjectRef.{ObjectRef}
use kluctl.Uo.Value.{Value, null, bool, int, float, string, list, object}
use kluctl.Uo.Child.{name, KeyPath}
use kluctl.Uo.Nested.{UnstructuredObject, get_nested_field}
use kluctl.Uo.Typed.{get_nested_string, get_nested_object_list}
use kluctl.Validation.Flow.{
  ValidateResult, Flow, next, returned, failed, crashed, go_on, raise, when, M, ◌>>◌, pure,
  add_error, add_warning,
}
use kluctl.Validation.Flow.Laws.{
  After, Keeps, ◌then_keep◌, ◌also_keep◌, pure-Keeps, skip-Keeps, found_of-Keeps,
}
use kluctl.Validation.Status.{
  Condition, ErrorReaction, react_ignore, react_error, react_warning, react_not_ready, react,
  listed, as_string, as_int, no_condition, or_blank, or_react, string_or_empty_at, add_not_ready,
  react_to_error, conditions_of, find_conditions, missing_condition, only_condition, get_condition,
  get_status_field, get_status_field_str, get_status_field_int,
}

-- Assertions that the code keeps: `Raised` is what holds once an object was reported.
pub record Kept (nre : Bool) (Holds Raised : ValidateResult → Type 0) : Type 0 where
  pub error :
      (ref : ObjectRef) (message : String) (v : ValidateResult)
      → Holds v
      → Holds (add_error ref message v).1 × Raised (add_error ref message v).1
  pub warning :
      (ref : ObjectRef) (message : String) (v : ValidateResult)
      → Holds v
      → Holds (add_warning ref message v).1
  pub waiting :
      (ref : ObjectRef) (message : String) (v : ValidateResult)
      → Holds v
      → After Holds Raised (add_not_ready ref nre message v)
        × Raised (add_not_ready ref nre message v).1

-- The reactions after which the code may raise.
abbrev pub reports : ErrorReaction → Bool
reports react_ignore = false
reports react_error = true
reports react_warning = false
reports react_not_ready = true

module _ {nre : Bool} {Holds Raised : ValidateResult → Type 0} (kept : Kept nre Holds Raised)
    (ref : ObjectRef) where
  open kept use {error, warning, waiting}

  abbrev Keep : {A : Type 0} → M A → Type 0
  Keep = Keeps Holds Raised

  pub add_error-Keep : (message : String) → Keep (add_error ref message)
  unfolding add_error
  add_error-Keep message = record { keep = λ v h. (error ref message v h).0 }

  pub add_not_ready-Keep : (message : String) → Keep (add_not_ready ref nre message)
  add_not_ready-Keep message = record { keep = λ v h. (waiting ref message v h).0 }

  raise-After :
      (r : Flow (Unit {0}) × ValidateResult)
      → After Holds Raised r
      → Raised r.1
      → After Holds Raised (go_on (λ _. raise {A = Unit {0}}) r)
  raise-After (next a, v) h k = k
  raise-After (returned, v) h k = h
  raise-After (failed, v) h k = h
  raise-After (crashed, v) h k = h

  pub react_to_error-Keep :
      (e : String) (er : ErrorReaction) (do_raise : Bool)
      → not do_raise || reports er ≡ true
      → Keep (react_to_error ref nre e er do_raise)
  unfolding react_to_error add_error add_warning add_not_ready ◌>>◌
  react_to_error-Keep e react_ignore true s = cc
  react_to_error-Keep e react_warning true s = cc
  react_to_error-Keep e react_error true s = record {
    keep = λ v h.
        raise-After (react ref nre react_error e v) ((add_error-Keep e).keep v h)
          (error ref e v h).1;
  }
  react_to_error-Keep e react_not_ready true s = record {
    keep = λ v h.
        raise-After (react ref nre react_not_ready e v) (waiting ref e v h).0 (waiting ref e v h).1;
  }
  react_to_error-Keep e react_ignore false s = record { keep = λ v h. h }
  react_to_error-Keep e react_warning false s = record { keep = λ v h. warning ref e v h }
  react_to_error-Keep e react_error false s = add_error-Keep e also_keep skip-Keeps
  react_to_error-Keep e react_not_ready false s = add_not_ready-Keep e also_keep skip-Keeps

  or_blank-Keep : (found : Option String) → Keep (or_blank found)
  or_blank-Keep none = pure-Keeps ""
  or_blank-Keep (some s) = pure-Keeps s

  pub string_or_empty_at-Keep :
      (o : UnstructuredObject) (keys : KeyPath) → Keep (string_or_empty_at o keys)
  string_or_empty_at-Keep o keys =
      found_of-Keeps (get_nested_string o keys) then_keep λ found. or_blank-Keep found

  conditions_of-Keep :
      (typ : String) (cs : List UnstructuredObject) → Keep (conditions_of ref nre typ cs)
  unfolding conditions_of
  conditions_of-Keep typ [] = pure-Keeps {A = List Condition} []
  conditions_of-Keep typ (c ∷ cs) = string_or_empty_at-Keep c (name "type" ∷ []) then_keep λ t.
      string_or_empty_at-Keep c (name "status" ∷ []) then_keep λ status.
      string_or_empty_at-Keep c (name "reason" ∷ []) then_keep λ reason.
      string_or_empty_at-Keep c (name "message" ∷ []) then_keep λ message.
      conditions_of-Keep typ cs then_keep λ rest. pure-Keeps (
        if str_eq t typ
        then record { status = status; reason = reason; message = message } ∷ rest
        else rest)

  missing_condition-Keep :
      (typ : String) (er : ErrorReaction) (do_raise : Bool) (cs : List Condition)
      → not do_raise || reports er ≡ true
      → Keep (missing_condition ref nre typ er do_raise cs)
  missing_condition-Keep typ er do_raise [] s =
      react_to_error-Keep _ er do_raise s also_keep pure-Keeps {A = List Condition} []
  missing_condition-Keep typ er do_raise (c ∷ cs) s = pure-Keeps (c ∷ cs)

  find_conditions-Keep :
      (o : UnstructuredObject) (typ : String) (er : ErrorReaction) (do_raise : Bool)
      → not do_raise || reports er ≡ true
      → Keep (find_conditions ref nre o typ er do_raise)
  unfolding find_conditions
  find_conditions-Keep o typ er do_raise s =
      found_of-Keeps (get_nested_object_list o (name "conditions" ∷ [])) then_keep λ l.
      conditions_of-Keep typ (listed ref nre l) then_keep λ cs.
      missing_condition-Keep typ er do_raise cs s

  -- An error of the object itself, after which the code may raise.
  error_then-Keeps :
      {A : Type 0} (message : String) (do_raise : Bool) {k : M A}
      → Keep k
      → Keep (add_error ref message >> (when do_raise raise >> k))
  unfolding add_error ◌>>◌
  error_then-Keeps message true h = record { keep = λ v p. (error ref message v p).1 }
  error_then-Keeps message false h = record {
    keep = λ v p. h.keep (add_error ref message v).1 (error ref message v p).0;
  }

  only_condition-Keep :
      (typ : String) (do_raise : Bool) (cs : List Condition)
      → Keep (only_condition ref nre typ do_raise cs)
  only_condition-Keep typ do_raise [] = pure-Keeps no_condition
  only_condition-Keep typ do_raise (c ∷ []) = pure-Keeps c
  only_condition-Keep typ do_raise (c ∷ d ∷ cs) = error_then-Keeps _ do_raise (pure-Keeps c)

  pub get_condition-Keep :
      (o : UnstructuredObject) (typ : String) (er : ErrorReaction) (do_raise : Bool)
      → not do_raise || reports er ≡ true
      → Keep (get_condition ref nre o typ er do_raise)
  unfolding get_condition
  get_condition-Keep o typ er do_raise s =
      find_conditions-Keep o typ er do_raise s then_keep λ cs. only_condition-Keep typ do_raise cs

  or_react-Keep :
      (field : String) (er : ErrorReaction) (do_raise : Bool) (default : Value)
      (found : Option Value)
      → not do_raise || reports er ≡ true
      → Keep (or_react ref nre field er do_raise default found)
  or_react-Keep field er do_raise default (some v) s = pure-Keeps v
  or_react-Keep field er do_raise default none s =
      react_to_error-Keep _ er do_raise s also_keep pure-Keeps default

  get_status_field-Keep :
      (o : UnstructuredObject) (field : String) (er : ErrorReaction) (do_raise : Bool)
      (default : Value)
      → not do_raise || reports er ≡ true
      → Keep (get_status_field ref nre o field er do_raise default)
  unfolding get_status_field
  get_status_field-Keep o field er do_raise default s =
      found_of-Keeps (get_nested_field o (name field ∷ [])) then_keep λ found.
      or_react-Keep field er do_raise default found s

  as_string-Keep :
      (field : String) (do_raise : Bool) (default : String) (v : Value)
      → Keep (as_string ref nre field do_raise default v)
  as_string-Keep field do_raise default (string s) = pure-Keeps s
  as_string-Keep field do_raise default null = error_then-Keeps _ do_raise (pure-Keeps default)
  as_string-Keep field do_raise default (bool b) = error_then-Keeps _ do_raise (pure-Keeps default)
  as_string-Keep field do_raise default (int i) = error_then-Keeps _ do_raise (pure-Keeps default)
  as_string-Keep field do_raise default (float f) = error_then-Keeps _ do_raise (pure-Keeps default)
  as_string-Keep field do_raise default (list l) = error_then-Keeps _ do_raise (pure-Keeps default)
  as_string-Keep field do_raise default (object m) =
      error_then-Keeps _ do_raise (pure-Keeps default)

  pub get_status_field_str-Keep :
      (o : UnstructuredObject) (field : String) (er : ErrorReaction) (do_raise : Bool)
      (default : String)
      → not do_raise || reports er ≡ true
      → Keep (get_status_field_str ref nre o field er do_raise default)
  unfolding get_status_field_str
  get_status_field_str-Keep o field er do_raise default s =
      get_status_field-Keep o field er do_raise (string default) s
      then_keep as_string-Keep field do_raise default

  module _ (field : String) (er : ErrorReaction) (do_raise : Bool) (default : ℤ) where
    no_int-Keep :
        (not do_raise || reports er ≡ true)
        → Keep (
            react_to_error ref nre (str_append field " field is not an int") er do_raise
            >> pure default)
    no_int-Keep s = react_to_error-Keep _ er do_raise s also_keep pure-Keeps default

    as_int-Keep :
        (v : Value)
        → (not do_raise || reports er ≡ true)
        → Keep (as_int ref nre field er do_raise default v)
    as_int-Keep (int i) s = pure-Keeps (wrap_int64 i)
    as_int-Keep null s = no_int-Keep s
    as_int-Keep (bool b) s = no_int-Keep s
    as_int-Keep (string i) s = no_int-Keep s
    as_int-Keep (float f) s = no_int-Keep s
    as_int-Keep (list l) s = no_int-Keep s
    as_int-Keep (object m) s = no_int-Keep s

    pub get_status_field_int-Keep :
        (o : UnstructuredObject)
        → (not do_raise || reports er ≡ true)
        → Keep (get_status_field_int ref nre o field er do_raise default)
    unfolding get_status_field_int
    get_status_field_int-Keep o s =
        get_status_field-Keep o field er do_raise (int default) s then_keep λ v. as_int-Keep v s
