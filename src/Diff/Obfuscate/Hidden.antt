-- ===== src/Diff/Obfuscate/Hidden.antt =====
-- What pkg/diff/obfuscate.go leaves to be read of a secret.
use kluctl.Prelude.{
  String, ◌≡◌, ◌≢◌, refl, ap, ◌∙◌, sym, subst, Bool, true, false, Option, none, some, [], ◌∷◌,
  if◌then◌else◌, ◌==◌, Result, ok, err, panicked, >>=-eq-ok, arith, eq_iff,
}
use kluctl.Types.ObjectRef.{ObjectRef, group_kind, gk_eq}
use kluctl.Uo.Value.{
  Value, null, bool, int, float, string, list, object, Fields, end, field, put_field, get_field,
  get-put_field,
}
use kluctl.Uo.Child.{name, KeyPath, get_child}
use kluctl.Uo.Nested.{UnstructuredObject, get_nested_field, get_in, after_child}
use kluctl.Uo.K8s.{Schema, get_k8s_ref}
use kluctl.Diff.Obfuscate.{
  Obfuscated, with_object, secret_gk, hidden, hidden_base64, hide, hide_found, hide_field,
  then_hide, obfuscate_secret, obfuscate_object,
}

-- A value that was found is read as the text.
abbrev pub masked : String → Result (Option Value) → Result (Option Value)
masked t (ok (some v)) = ok (some (string t))
masked t (ok none) = ok none
masked t (err e) = err e
masked t panicked = panicked

abbrev below : KeyPath → Option Value → Result (Option Value)
below ks f = after_child (ok f) (λ v. get_in v ks)

get_field-hide :
    (t k : String) (m : Fields)
    → below [] (get_field k (hide t m)) ≡ masked t (below [] (get_field k m))
unfolding get_field hide get_in
get_field-hide t k end = refl
get_field-hide t k (field j v m) = ground (arith, eq_iff j k, get_field-hide t k m)

get-put_same : (k : String) (v : Value) (m : Fields) → get_field k (put_field k v m) ≡ some v
get-put_same k v m = ground (arith, get-put_field k k v m, eq_iff k k)

get-put_other :
    (k j : String) (v : Value) (m : Fields) → k ≢ j → get_field j (put_field k v m) ≡ get_field j m
get-put_other k j v m h = ground (arith, get-put_field k j v m, eq_iff k j)

hide_found-masked :
    (key t k : String) (x : UnstructuredObject) (f : Option Value)
    → get_field key x.fields ≡ f
    → (hide_found key t x (below [] f)).1 ≡ none
    → below (name k ∷ []) (get_field key (hide_found key t x (below [] f)).0.fields)
      ≡ masked t (below (name k ∷ []) f)
unfolding get_in get_child
hide_found-masked key t k x none e h = rw e
hide_found-masked key t k x (some null) e h = rw e
hide_found-masked key t k x (some (object m)) e h =
    rw (get-put_same key (object (hide t m)) x.fields) (get_field-hide t k m)
hide_found-masked key t k x (some (bool b)) e h = cc
hide_found-masked key t k x (some (int i)) e h = cc
hide_found-masked key t k x (some (float i)) e h = cc
hide_found-masked key t k x (some (string s)) e h = cc
hide_found-masked key t k x (some (list l)) e h = cc

-- Hiding one field keeps what is below the others.
hide_found-frame :
    (key t j : String) (ks : KeyPath) (x : UnstructuredObject) (r : Result (Option Value))
    → key ≢ j
    → below ks (get_field j (hide_found key t x r).0.fields) ≡ below ks (get_field j x.fields)
hide_found-frame key t j ks x (ok (some (object m))) h =
    rw (get-put_other key j (object (hide t m)) x.fields h) refl
hide_found-frame key t j ks x (ok (some null)) h = refl
hide_found-frame key t j ks x (ok (some (bool b))) h = refl
hide_found-frame key t j ks x (ok (some (int i))) h = refl
hide_found-frame key t j ks x (ok (some (float i))) h = refl
hide_found-frame key t j ks x (ok (some (string s))) h = refl
hide_found-frame key t j ks x (ok (some (list l))) h = refl
hide_found-frame key t j ks x (ok none) h = refl
hide_found-frame key t j ks x (err e) h = refl
hide_found-frame key t j ks x panicked h = refl

hide_field-masked :
    (key t k : String) (x : UnstructuredObject)
    → (hide_field key t x).1 ≡ none
    → get_nested_field (hide_field key t x).0 (name key ∷ name k ∷ [])
      ≡ masked t (get_nested_field x (name key ∷ name k ∷ []))
unfolding hide_field get_nested_field get_in get_child
hide_field-masked key t k x h = hide_found-masked key t k x (get_field key x.fields) refl h

hide_field-frame :
    (key t j : String) (ks : KeyPath) (x : UnstructuredObject)
    → key ≢ j
    → get_nested_field (hide_field key t x).0 (name j ∷ ks) ≡ get_nested_field x (name j ∷ ks)
unfolding hide_field get_nested_field get_in get_child
hide_field-frame key t j ks x h = hide_found-frame key t j ks x _ h

-- What is read of an obfuscated secret, below `data` and below `stringData`.
unfoldable pub Masked : String → UnstructuredObject → UnstructuredObject → Type 0
Masked k x y =
    (get_nested_field y (name "data" ∷ name k ∷ [])
      ≡ masked hidden_base64 (get_nested_field x (name "data" ∷ name k ∷ [])))
    × (get_nested_field y (name "stringData" ∷ name k ∷ [])
        ≡ masked hidden (get_nested_field x (name "stringData" ∷ name k ∷ [])))

then_hide-Masked :
    (k : String) (x : UnstructuredObject) (e : Option String)
    → (hide_field "data" hidden_base64 x).1 ≡ e
    → (then_hide "stringData" hidden ((hide_field "data" hidden_base64 x).0, e)).1 ≡ none
    → Masked k x (then_hide "stringData" hidden ((hide_field "data" hidden_base64 x).0, e)).0
unfolding Masked
then_hide-Masked k x none e h =
    let x1 = (hide_field "data" hidden_base64 x).0 in
    (
      hide_field-frame "stringData" hidden "data" (name k ∷ []) x1 (λ q. cc)
          ∙ hide_field-masked "data" hidden_base64 k x e,
      hide_field-masked "stringData" hidden k x1 h
          ∙ ap (masked hidden)
              (hide_field-frame "data" hidden_base64 "stringData" (name k ∷ []) x (λ q. cc)),
    )
then_hide-Masked k x (some t) e h = cc

after_ref :
    (r : Obfuscated) (x y : UnstructuredObject) (b : Bool)
    → b ≡ true
    → ok (if b then with_object r else (some x, none)) ≡ ok (some y, none)
    → (r.0 ≡ y) × (r.1 ≡ none)
after_ref r x y true e h = (cc, cc)
after_ref r x y false e h = cc

-- If the reference of an object can be read and is that of a secret, and ObfuscateObject returns
-- without an error, then every value of its data reads as the base64 encoding of five stars, and
-- every value of its stringData as five stars; a value that cannot be read there still cannot.
pub obfuscate_object-Masked :
    (schema : Schema) (x y : UnstructuredObject) (ref : ObjectRef) (k : String)
    → get_k8s_ref schema x ≡ ok ref
    → group_kind ref ≡ secret_gk
    → obfuscate_object schema (some x) ≡ ok (some y, none)
    → Masked k x y
unfolding obfuscate_object obfuscate_secret
obfuscate_object-Masked schema x y ref k e secret h =
    let (r, e', q) = >>=-eq-ok (get_k8s_ref schema x) _ h in
    let same_ref : r ≡ ref = cc in
    let is_secret : group_kind r == secret_gk ≡ true =
      subst (λ g. g == secret_gk ≡ true) (sym (ap group_kind same_ref ∙ secret)) refl in
    let (same, fine) = after_ref (obfuscate_secret x) x y (group_kind r == secret_gk) is_secret q in
    subst (Masked k x) same (then_hide-Masked k x (hide_field "data" hidden_base64 x).1 refl fine)
