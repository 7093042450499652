-- ===== src/Utils/Parse.antt =====
-- pkg/utils/utils.go, and the functions of Go's strconv and strings that it needs.
use text.Mathlib.Text.{◌==◌ as str_eq}
use kluctl.Prelude.{
  String, ℕ, suc, Bool, true, false, ◌||◌, Option, none, some, List, [], ◌∷◌, if◌then◌else◌,
}
use mathlib.Core.Option

-- `strconv.ParseBool`: none for a syntax error.
unfoldable pub parse_bool : String → Option Bool
parse_bool s =
    if str_eq s "1"
      || str_eq s "t"
      || str_eq s "T"
      || str_eq s "true"
      || str_eq s "TRUE"
      || str_eq s "True"
    then some true
    else if str_eq s "0"
        || str_eq s "f"
        || str_eq s "F"
        || str_eq s "false"
        || str_eq s "FALSE"
        || str_eq s "False"
    then some false
    else none

-- `ParseBoolOrFalse`
unfoldable pub parse_bool_or_false : Option String → Bool
unfolding parse_bool
parse_bool_or_false none = false
parse_bool_or_false (some s) = elim (parse_bool s) [ none ↦ false | some b ↦ b ]

-- `FindStrInSlice`: none for -1.
unfoldable pub find_str_in_slice : List String → String → Option ℕ
find_str_in_slice [] s = none
find_str_in_slice (v ∷ a) s = if str_eq v s then some 0 else Option.map suc (find_str_in_slice a s)
