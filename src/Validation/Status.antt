-- ===== src/Validation/Status.antt =====
-- pkg/validation/validation.go: the closures of `ValidateObject` that read the status of an object.
use Prim.Native.String.{◌++◌ as str_append}
use text.Mathlib.Text.{◌==◌ as str_eq}
use kluctl.Prelude.{String, Bool, Option, none, some, List, [], ◌∷◌, if◌then◌else◌, ℤ, wrap_int64}
use kluctl.Types.ObjectRef.{ObjectRef}
use kluctl.Uo.Value.{Value, int, string}
use kluctl.Uo.Child.{name, KeyPath}
use kluctl.Uo.Nested.{UnstructuredObject, get_nested_field}
use kluctl.Uo.Typed.{get_nested_string, get_nested_object_list}
use kluctl.Validation.Flow.{
  M, ◌>>=◌, ◌>>◌, pure, skip, raise, found_of, add_error, add_warning, not_ready, when,
}

pub record Condition : Type 0 where
  pub status : String
  pub reason : String
  pub message : String

abbrev pub no_condition : Condition
no_condition = record { status = ""; reason = ""; message = "" }

unfoldable pub get_message : Condition → String → String
get_message c default = if str_eq c.message "" then default else c.message

-- `errorReaction`
pub data ErrorReaction : Type 0 where
  react_ignore react_error react_warning react_not_ready : ErrorReaction

abbrev pub or_blank : Option String → M String
or_blank none = pure ""
or_blank (some s) = pure s

-- A string that may be missing, or not be a string, reads as "".
abbrev pub string_or_empty_at : UnstructuredObject → KeyPath → M String
string_or_empty_at o keys = do found ← found_of (get_nested_string o keys); or_blank found

module _ (ref : ObjectRef) (not_ready_is_error : Bool) where
  unfoldable pub add_not_ready : String → M (Unit {0})
  add_not_ready message = do
    if not_ready_is_error then add_error ref message else add_warning ref message
    not_ready

  abbrev pub react : ErrorReaction → String → M (Unit {0})
  react react_ignore e = skip
  react react_error e = add_error ref e
  react react_warning e = add_warning ref e
  react react_not_ready e = add_not_ready e

  -- `reactToError` of an error that is not nil.
  unfoldable pub react_to_error : String → ErrorReaction → Bool → M (Unit {0})
  react_to_error e er do_raise = do react er e; when do_raise raise

  -- The conditions of a type, in their order.
  unfoldable pub conditions_of : String → List UnstructuredObject → M (List Condition)
  conditions_of typ [] = pure []
  conditions_of typ (c ∷ cs) = do
    t ← string_or_empty_at c (name "type" ∷ [])
    status ← string_or_empty_at c (name "status" ∷ [])
    reason ← string_or_empty_at c (name "reason" ∷ [])
    message ← string_or_empty_at c (name "message" ∷ [])
    rest ← conditions_of typ cs
    pure (
        if str_eq t typ
        then record { status = status; reason = reason; message = message } ∷ rest
        else rest)

  abbrev pub missing_condition : String → ErrorReaction → Bool → List Condition → M (List Condition)
  missing_condition typ er do_raise [] = do
    react_to_error (str_append typ " condition not in status") er do_raise
    pure []
  missing_condition typ er do_raise (c ∷ cs) = pure (c ∷ cs)

  abbrev pub listed : Option (List UnstructuredObject) → List UnstructuredObject
  listed none = []
  listed (some l) = l

  unfoldable pub find_conditions :
      UnstructuredObject → String → ErrorReaction → Bool → M (List Condition)
  unfolding conditions_of
  find_conditions status typ er do_raise = do
    l ← found_of (get_nested_object_list status (name "conditions" ∷ []))
    cs ← conditions_of typ (listed l)
    missing_condition typ er do_raise cs

  abbrev pub only_condition : String → Bool → List Condition → M Condition
  only_condition typ do_raise [] = pure no_condition
  only_condition typ do_raise (c ∷ []) = pure c
  only_condition typ do_raise (c ∷ d ∷ cs) = do
    add_error ref (str_append typ " condition found more then once")
    when do_raise raise
    pure c

  unfoldable pub get_condition : UnstructuredObject → String → ErrorReaction → Bool → M Condition
  unfolding find_conditions
  get_condition status typ er do_raise = do
    cs ← find_conditions status typ er do_raise
    only_condition typ do_raise cs

  abbrev pub or_react : String → ErrorReaction → Bool → Value → Option Value → M Value
  or_react field er do_raise default (some v) = pure v
  or_react field er do_raise default none = do
    react_to_error (str_append field " field not in status or empty") er do_raise
    pure default

  unfoldable pub get_status_field :
      UnstructuredObject → String → ErrorReaction → Bool → Value → M Value
  get_status_field status field er do_raise default = do
    found ← found_of (get_nested_field status (name field ∷ []))
    or_react field er do_raise default found

  abbrev pub as_string : String → Bool → String → Value → M String
  as_string field do_raise default (string s) = pure s
  as_string field do_raise default v = do
    add_error ref (str_append field " field is not a string")
    when do_raise raise
    pure default

  unfoldable pub get_status_field_str :
      UnstructuredObject → String → ErrorReaction → Bool → String → M String
  unfolding get_status_field
  get_status_field_str status field er do_raise default = do
    v ← get_status_field status field er do_raise (string default)
    as_string field do_raise default v

  -- A uint64 above the int64s wraps around.
  abbrev pub as_int : String → ErrorReaction → Bool → ℤ → Value → M ℤ
  as_int field er do_raise default (int i) = pure (wrap_int64 i)
  as_int field er do_raise default v = do
    react_to_error (str_append field " field is not an int") er do_raise
    pure default

  unfoldable pub get_status_field_int : UnstructuredObject → String → ErrorReaction → Bool → ℤ → M ℤ
  unfolding get_status_field
  get_status_field_int status field er do_raise default = do
    v ← get_status_field status field er do_raise (int default)
    as_int field er do_raise default v
