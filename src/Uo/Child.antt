-- ===== src/Uo/Child.antt =====
-- pkg/utils/uo/unstructured.go: one step into a document.
pub mod Laws
use kluctl.Prelude.{
  String, ℕ, suc, ◌≡◌, refl, Bool, true, false, Option, none, some, List, arith, if◌then◌else◌, ltb,
  ℤ, pos, negsuc, Result, ok, err, panicked,
}
use kluctl.Uo.Value.{
  Value, null, bool, int, float, string, list, object, Items, Fields, items_length, nth, set_nth,
  get_field, put_field,
}

-- The dynamic type of a key is a string or an int.
pub data Key : Type 0 where
  name : String → Key
  index : ℤ → Key

-- `KeyPath`
abbrev pub KeyPath : Type 0
KeyPath = List Key

-- `GetChild`: `ok none` is `nil, false, nil`.
get_item : Items → ℤ → Result (Option Value)
get_item l (negsuc i) = err "index out of bounds"
get_item l (pos i) = elim (nth l i) [ none ↦ err "index out of bounds" | some v ↦ ok (some v) ]

unfoldable pub get_child : Value → Key → Result (Option Value)
unfolding get_item
get_child (object m) (name k) = ok (get_field k m)
get_child (object m) (index i) = err "key is not a string"
get_child (list l) (index i) = get_item l i
get_child (list l) (name k) = err "key is not an int"
get_child _ k = err "unknown parent type"

-- `SetChild`: the parent after the assignment; a list index out of range panics.
set_item : Items → ℤ → Value → Result Value
set_item l (negsuc i) v = panicked
set_item l (pos i) v = elim (nth l i) [ none ↦ panicked | some w ↦ ok (list (set_nth l i v)) ]

unfoldable pub set_child : Value → Key → Value → Result Value
unfolding set_item
set_child (object m) (name k) v = ok (object (put_field k v m))
set_child (object m) (index i) v = err "key is not a string"
set_child (list l) (index i) v = set_item l i v
set_child (list l) (name k) v = err "key is not an int"
set_child _ k v = err "unknown parent type"
