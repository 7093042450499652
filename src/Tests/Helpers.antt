-- ===== src/Tests/Helpers.antt =====
-- Runs of the theorems on pkg/utils.
use text.Mathlib.Text.{◌==◌ as str_eq}
use kluctl.Prelude.{
  ℕ, ◌≡◌, refl, ◌↔◌, ◌++◌, true, not, none, some, List, [], ◌∷◌, if◌then◌else◌, string_eq, lookup,
}
use kluctl.Utils.Inclusion.{Inclusion, InclusionEntry, entry_eq, check_included}
use kluctl.Utils.Inclusion.Laws.{Included, entry, check_included_iff}
use kluctl.Utils.OrderedMap.{OrderedMap, set, get, merge, has_key, list_keys}
use kluctl.Utils.OrderedMap.Laws.{
  IsValid, position, find, get-find, set-IsValid, get-set, list_keys-set, get-merge,
}

abbrev tagged : Inclusion
tagged = record { includes = entry "tag" "web" ∷ []; excludes = [] }

abbrev web : List InclusionEntry
web = entry "tag" "web" ∷ []

check_included_iff_example :
    (check_included (some tagged) web true ≡ true) ↔ Included tagged web true
check_included_iff_example = check_included_iff tagged web true

abbrev empty_map : OrderedMap ℕ
empty_map = record { m = none; l = [] }

empty_map-IsValid : IsValid empty_map
unfolding lookup position
empty_map-IsValid = record { indexed = λ k. refl; fresh = λ e. refl }

abbrev one_key : OrderedMap ℕ
one_key = (set "a" 1 empty_map).0

one_key-IsValid : IsValid one_key
one_key-IsValid = set-IsValid "a" 1 empty_map empty_map-IsValid

get-find_example : get "a" one_key ≡ some (find "a" one_key.l)
get-find_example = get-find "a" one_key one_key-IsValid

set-IsValid_example : IsValid (set "b" 2 one_key).0
set-IsValid_example = set-IsValid "b" 2 one_key one_key-IsValid

get-set_example : get "b" (set "a" 2 one_key).0 ≡ (
    if has_key "a" one_key
    then get "b" one_key
    else if str_eq "a" "b"
    then some (some 2)
    else get "b" one_key)
get-set_example = get-set "a" "b" 2 one_key one_key-IsValid

list_keys-set_example :
    ((set "b" 2 one_key).1 ≡ not (has_key "b" one_key))
    × (list_keys (set "b" 2 one_key).0
        ≡ (if has_key "b" one_key then list_keys one_key else list_keys one_key ++ "b" ∷ []))
list_keys-set_example = list_keys-set "b" 2 one_key one_key-IsValid

get-merge_example :
    get "a" (merge one_key empty_map)
    ≡ (if has_key "a" empty_map then get "a" empty_map else get "a" one_key)
get-merge_example = get-merge "a" one_key empty_map one_key-IsValid empty_map-IsValid
