-- ===== src/Uo/Nested.antt =====
-- pkg/utils/uo/nested_fields.go: paths into an object. The source edits maps and lists in place and
-- every level shares them with the level above, so an edit of a child is an edit of its parent. The
-- functions below return the document after the edit, and what the source returns.
pub mod Laws
pub mod Frame
pub mod Remove
use kluctl.Prelude.{
  String, ℕ, ◌≡◌, Bool, true, false, Option, none, some, List, [], ◌∷◌, if◌then◌else◌, ℤ, pos,
  negsuc, Result, ok, err, panicked, ◌>>=◌, ◌||◌,
}
use kluctl.Uo.Value.{
  Value, null, bool, int, float, string, list, object, Items, nil, cons, Fields, end, field, nth,
  remove_nth, items_length, get_field, put_field, delete_field,
}
use kluctl.Uo.Child.{Key, name, index, KeyPath, get_child, set_child}

-- `UnstructuredObject`
pub record UnstructuredObject : Type 0 where
  pub fields : Fields

-- The loop of `GetNestedField` from a value: what follows one `GetChild`.
abbrev pub after_child :
    Result (Option Value) → (Value → Result (Option Value)) → Result (Option Value)
after_child (ok none) rest = ok none
after_child (ok (some v)) rest = rest v
after_child (err e) rest = err e
after_child panicked rest = panicked

unfoldable pub get_in : Value → KeyPath → Result (Option Value)
get_in o [] = ok (some o)
get_in o (k ∷ keys) = after_child (get_child o k) (λ v. get_in v keys)

unfoldable pub get_nested_field : UnstructuredObject → KeyPath → Result (Option Value)
unfolding get_in
get_nested_field o keys = get_in (object o.fields) keys

-- The parent of an edited child.
abbrev pub changed : Value → Result Value → Value
changed o (ok o') = o'
changed o (err e) = o
changed o panicked = o

-- The document after an edit, and the error of the edit.
abbrev pub Edit : Type 0
Edit = Value × Result (Unit {0})

-- The edit that an assignment makes.
abbrev pub assigned : Value → Result Value → Edit
assigned o (ok o') = (o', ok tt)
assigned o (err e) = (o, err e)
assigned o panicked = (o, panicked)

-- The edit of a child, seen from its parent.
abbrev pub inside : Value → Key → Edit → Edit
inside o k edit = (changed o (set_child o k edit.0), edit.1)

-- The edit goes on in a new map, once that is put under `k`.
abbrev pub inside_new : Value → Key → Edit → Result Value → Edit
inside_new o k edit (ok o') = inside o' k edit
inside_new o k edit (err e) = (o, err e)
inside_new o k edit panicked = (o, panicked)

-- What `SetNestedField` does after `val, ok, err := GetChild(o, field)`.
abbrev pub set_step : Value → Key → (Value → Edit) → Result (Option Value) → Edit
set_step o k deeper (ok none) = inside_new o k (deeper (object end)) (set_child o k (object end))
set_step o k deeper (ok (some null)) =
    inside_new o k (deeper (object end)) (set_child o k (object end))
set_step o k deeper (ok (some c)) = inside o k (deeper c)
set_step o k deeper (err e) = (o, err e)
set_step o k deeper panicked = (o, panicked)

-- `SetNestedField` from a value; no key at all is a slice bound out of range.
unfoldable pub set_in : Value → KeyPath → Value → Edit
set_in o [] v = (o, panicked)
set_in o (k ∷ []) v = assigned o (set_child o k v)
set_in o (k ∷ k' ∷ keys) v = set_step o k (λ c. set_in c (k' ∷ keys) v) (get_child o k)

-- The object of an edited root: an edit of a map leaves a map.
abbrev as_object : Value → UnstructuredObject
as_object (object m) = record { fields = m }
as_object _ = record { fields = end }

unfoldable pub set_nested_field :
    UnstructuredObject → Value → KeyPath → UnstructuredObject × Result (Unit {0})
unfolding set_in
set_nested_field o value keys =
    let (o', r) = set_in (object o.fields) keys value in (as_object o', r)

-- The last step of `RemoveNestedField`. The shortened list goes back to its parent by `SetNestedField`
-- along the path that was walked, which is the edit of the child.
remove_last : Value → Key → Edit
remove_last (list l) (index (pos i)) = (list (remove_nth l i), ok tt)
remove_last (list l) (index (negsuc i)) = (list l, ok tt)
remove_last (list l) (name k) = (list l, err "key is not an index")
remove_last (object m) (name k) = (object (delete_field k m), ok tt)
remove_last (object m) (index i) = (object m, err "key is not a string")
remove_last o k = (o, ok tt)

-- What `RemoveNestedField` does after `val, ok, err := GetChild(o, field)`.
abbrev pub remove_step : Value → Key → (Value → Edit) → Result (Option Value) → Edit
remove_step o k deeper (ok none) = (o, ok tt)
remove_step o k deeper (ok (some c)) = inside o k (deeper c)
remove_step o k deeper (err e) = (o, err e)
remove_step o k deeper panicked = (o, panicked)

unfoldable pub remove_in : Value → KeyPath → Edit
unfolding remove_last
remove_in o [] = (o, panicked)
remove_in o (k ∷ []) = remove_last o k
remove_in o (k ∷ k' ∷ keys) = remove_step o k (λ c. remove_in c (k' ∷ keys)) (get_child o k)

unfoldable pub remove_nested_field :
    UnstructuredObject → KeyPath → UnstructuredObject × Result (Unit {0})
unfolding remove_in
remove_nested_field o keys = let (o', r) = remove_in (object o.fields) keys in (as_object o', r)
