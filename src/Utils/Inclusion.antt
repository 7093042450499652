-- ===== src/Utils/Inclusion.antt =====
-- pkg/utils/inclusion.go: which deployment items a command includes.
pub mod Laws
use text.Mathlib.Text.{◌==◌ as str_eq}
use kluctl.Prelude.{
  String, ◌≡◌, ◌↔◌, Bool, true, false, ◌&&◌, ◌||◌, not, Option, none, some, List, [], ◌∷◌, Eq,
  arith, eq_iff, if◌then◌else◌, contains, add, any, select, is_empty, map,
}

pub record InclusionEntry : Type 0 where
  pub type : String
  pub value : String

abbrev pub entry_beq : InclusionEntry → InclusionEntry → Bool
entry_beq a b = str_eq a.type b.type && str_eq a.value b.value

pub entry_beq_iff : (a b : InclusionEntry) → (entry_beq a b ≡ true) ↔ (a ≡ b)
entry_beq_iff a b = ground (arith, eq_iff a.type b.type, eq_iff a.value b.value)

instance abbrev pub entry_eq : Eq InclusionEntry
entry_eq = record { beq = entry_beq; beq_iff = entry_beq_iff }

-- The maps hold `true` under every key, so they are sets. The nil receiver is `none` below.
pub record Inclusion : Type 0 where
  pub includes : List InclusionEntry
  pub excludes : List InclusionEntry

unfoldable pub new_inclusion : Inclusion
new_inclusion = record { includes = []; excludes = [] }

pub add_include : String → String → Inclusion → Inclusion
add_include typ value inc = record inc {
  includes = add (record { type = typ; value = value }) inc.includes;
}

unfoldable pub add_exclude : String → String → Inclusion → Inclusion
add_exclude typ value inc = record inc {
  excludes = add (record { type = typ; value = value }) inc.excludes;
}

of_type : String → List InclusionEntry → List InclusionEntry
of_type typ = select (λ e. str_eq e.type typ)

has_of_type : String → List InclusionEntry → Bool
has_of_type typ = any (λ e. str_eq e.type typ)

unfoldable pub has_type : Option Inclusion → String → Bool
unfolding has_of_type
has_type none typ = false
has_type (some inc) typ = has_of_type typ inc.includes || has_of_type typ inc.excludes

pub get_includes : Option Inclusion → String → List String
unfolding of_type
get_includes none typ = []
get_includes (some inc) typ = map (λ e. e.value) (of_type typ inc.includes)

pub get_excludes : Option Inclusion → String → List String
unfolding of_type
get_excludes none typ = []
get_excludes (some inc) typ = map (λ e. e.value) (of_type typ inc.excludes)

unfoldable pub check_list : List InclusionEntry → List InclusionEntry → Bool
check_list [] m = false
check_list (e ∷ l) m = if contains m e then true else check_list l m

unfoldable pub check_included : Option Inclusion → List InclusionEntry → Bool → Bool
check_included none l exclude_if_not_included = true
check_included (some inc) l exclude_if_not_included =
    if is_empty inc.includes && is_empty inc.excludes
    then true
    else let is_included = check_list l inc.includes in
      let is_excluded = check_list l inc.excludes in
      if exclude_if_not_included && not is_included
      then false
      else if is_excluded
      then false
      else is_empty inc.includes || is_included
