-- ===== src/Uo/Child/Laws.antt =====
-- `SetChild` and `GetChild` of pkg/utils/uo/unstructured.go fit together.
use kluctl.Prelude.{◌≡◌, ◌≢◌, refl, Option, some, arith, eq_iff, pos, ok, Option-cases, inl, inr}
use kluctl.Uo.Value.{
  Value, list, object, nth, set_nth, put_field, get-put_field, nth-set_nth, nth-set_nth_ne,
}
use kluctl.Uo.Child.{Key, name, index, get_child, set_child}

-- What was assigned is read back.
pub get-set_child :
    (o o' v : Value) (k : Key) → set_child o k v ≡ ok o' → get_child o' k ≡ ok (some v)
unfolding get_child set_child
get-set_child (object m) o' v (name k) h = ground (arith, get-put_field k k v m, eq_iff k k)
get-set_child (list l) o' v (index (pos i)) h = elim (Option-cases (nth l i)) [
  | inl out ↦ ground arith
  | inr (w, here) ↦ ground (arith, nth-set_nth l i v w)
]
get-set_child _ o' v k h = cc

-- Where `GetChild` returns without an error, `SetChild` does.
pub set_child_total :
    (o : Value) (c : Option Value) (v : Value) (k : Key)
    → get_child o k ≡ ok c
    → (o' : Value) × (set_child o k v ≡ ok o')
unfolding get_child set_child
set_child_total (object m) c v (name k) h = (object (put_field k v m), refl)
set_child_total (list l) c v (index (pos i)) h = (list (set_nth l i v), ground arith)
set_child_total _ c v k h = cc

-- The other children stay, and no other child appears.
pub get-set_child_ne :
    (o o' v : Value) (c : Option Value) (k j : Key)
    → k ≢ j
    → set_child o k v ≡ ok o'
    → get_child o j ≡ ok c
    → get_child o' j ≡ ok c
unfolding get_child set_child
get-set_child_ne (object m) o' v c (name k) (name j) ne h g =
    ground (arith, get-put_field k j v m, eq_iff k j)
get-set_child_ne (list l) o' v c (index (pos i)) (index (pos j)) ne h g =
    ground (arith, nth-set_nth_ne l i j v)
get-set_child_ne _ o' v c k j ne h g = cc
