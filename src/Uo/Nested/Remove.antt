-- ===== src/Uo/Nested/Remove.antt =====
-- What `RemoveNestedField` has removed is not found any more.
use kluctl.Prelude.{
  String, ◌≡◌, ◌≢◌, refl, sym, ◌∙◌, Option, none, some, [], ◌∷◌, ◌++◌, Result, ok, err, panicked,
  eq_iff, arith,
}
use kluctl.Uo.Value.{Value, null, list, object, get-delete_field}
use kluctl.Uo.Child.{Key, name, index, KeyPath, get_child}
use kluctl.Uo.Nested.{
  UnstructuredObject, Edit, get_in, get_nested_field, remove_last, remove_step, remove_in,
  remove_nested_field,
}
use kluctl.Uo.Nested.Laws.{
  get_in-cons, get_in-first, get-changed, changed-IsObject, IsObject, as_object-fields,
}

-- A map has no value under a removed name, and what is no map has none either.
remove_last-gone :
    (o x : Value) (n : String)
    → (remove_last o (name n)).1 ≡ ok tt
    → get_child (remove_last o (name n)).0 (name n) ≢ ok (some x)
unfolding remove_last get_child
remove_last-gone (object m) x n h e = ground (arith, get-delete_field n n m, eq_iff n n)
remove_last-gone (list l) x n h e = cc
remove_last-gone _ x n h e = cc

-- The path to a named field.
abbrev pub to_field : KeyPath → String → KeyPath
to_field ks n = ks ++ name n ∷ []

get_in_not :
    (o x : Value) (k : Key) (ks : KeyPath) (r : Result (Option Value))
    → get_child o k ≡ r
    → ((c : Value) → r ≡ ok (some c) → get_in c ks ≢ ok (some x))
    → get_in o (k ∷ ks) ≢ ok (some x)
get_in_not o x k ks r e h g = let (c, q, w) = get_in-first o x k ks g in h c (sym e ∙ q) w

remove_step-gone :
    (o x : Value) (k : Key) (js : KeyPath) (deeper : Value → Edit) (r : Result (Option Value))
    → get_child o k ≡ r
    → ((c : Value) → (deeper c).1 ≡ ok tt → get_in (deeper c).0 js ≢ ok (some x))
    → (remove_step o k deeper r).1 ≡ ok tt
    → get_in (remove_step o k deeper r).0 (k ∷ js) ≢ ok (some x)
remove_step-gone o x k js deeper (ok none) e ih h g = get_in_not o x k js (ok none) e (λ c q. cc) g
remove_step-gone o x k js deeper (ok (some c)) e ih h g =
    ih c h (sym (get_in-cons _ _ k js (get-changed o c (deeper c).0 k e)) ∙ g)
remove_step-gone o x k js deeper (err t) e ih h g = cc
remove_step-gone o x k js deeper panicked e ih h g = cc

remove_in-gone :
    (o x : Value) (ks : KeyPath) (n : String)
    → (remove_in o (to_field ks n)).1 ≡ ok tt
    → get_in (remove_in o (to_field ks n)).0 (to_field ks n) ≢ ok (some x)
unfolding remove_in
remove_in-gone o x [] n h g =
    let (c, e, q) = get_in-first _ x (name n) [] g in remove_last-gone o c n h e
remove_in-gone o x (k ∷ []) n h g =
    remove_step-gone o x k (name n ∷ []) _ (get_child o k) refl (λ c. remove_in-gone c x [] n) h g
remove_in-gone o x (k ∷ k' ∷ ks) n h g =
    remove_step-gone o x k _ _ (get_child o k) refl (λ c. remove_in-gone c x (k' ∷ ks) n) h g

remove_last-IsObject : (o : Value) (k : Key) → IsObject o → IsObject (remove_last o k).0
unfolding remove_last
remove_last-IsObject (object m) (name n) h = tt
remove_last-IsObject (object m) (index i) h = tt
remove_last-IsObject null k h = elim h [ ]
remove_last-IsObject _ k h = elim h [ ]

remove_step-IsObject :
    (o : Value) (k : Key) (deeper : Value → Edit) (r : Result (Option Value))
    → IsObject o
    → IsObject (remove_step o k deeper r).0
remove_step-IsObject o k deeper (ok none) h = h
remove_step-IsObject o k deeper (ok (some c)) h = changed-IsObject o (deeper c).0 k h
remove_step-IsObject o k deeper (err t) h = h
remove_step-IsObject o k deeper panicked h = h

remove_in-IsObject : (o : Value) (ks : KeyPath) → IsObject o → IsObject (remove_in o ks).0
unfolding remove_in
remove_in-IsObject o [] h = h
remove_in-IsObject o (k ∷ []) h = remove_last-IsObject o k h
remove_in-IsObject o (k ∷ k' ∷ ks) h =
    remove_step-IsObject o k (λ c. remove_in c (k' ∷ ks)) (get_child o k) h

pub remove_nested-fields :
    (o : UnstructuredObject) (ks : KeyPath)
    → object (remove_nested_field o ks).0.fields ≡ (remove_in (object o.fields) ks).0
unfolding remove_nested_field
remove_nested-fields o ks =
    as_object-fields (remove_in (object o.fields) ks).0 (remove_in-IsObject (object o.fields) ks tt)

-- After `RemoveNestedField` of a named field that returns no error, `GetNestedField` finds no value at
-- that path, whether or not the field or the maps above it were there.
pub get-remove_nested_field :
    (o : UnstructuredObject) (x : Value) (ks : KeyPath) (n : String)
    → (remove_nested_field o (to_field ks n)).1 ≡ ok tt
    → get_nested_field (remove_nested_field o (to_field ks n)).0 (to_field ks n) ≢ ok (some x)
unfolding get_nested_field
get-remove_nested_field o x ks n h =
    rw (remove_nested-fields o (to_field ks n))
      (remove_in-gone (object o.fields) x ks n (unfold remove_nested_field in h))
