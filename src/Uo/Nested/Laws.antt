-- ===== src/Uo/Nested/Laws.antt =====
-- The laws of pkg/utils/uo/nested_fields.go: what an edit of one path does to that path and to others.
use kluctl.Prelude.{
  ◌≡◌, subst, refl, ◌∙◌, Option, none, some, [], ◌∷◌, Result, ok, err, panicked, ◌⊎◌, inl, inr,
}
use kluctl.Uo.Value.{Value, null, object, end}
use kluctl.Uo.Child.{Key, name, index, KeyPath, get_child, set_child}
use kluctl.Uo.Child.Laws.{get-set_child, set_child_total}
use kluctl.Uo.Nested.{
  UnstructuredObject, Edit, after_child, get_in, get_nested_field, changed, assigned, inside_new,
  set_step, set_in, set_nested_field, as_object,
}

pub get_in-cons :
    (o c : Value) (k : Key) (ks : KeyPath)
    → get_child o k ≡ ok (some c)
    → get_in o (k ∷ ks) ≡ get_in c ks
unfolding get_in
get_in-cons o c k ks h = rw h

-- The first step of a path that leads to a value.
pub get_in-first :
    (o v : Value) (k : Key) (ks : KeyPath)
    → get_in o (k ∷ ks) ≡ ok (some v)
    → (c : Value) × (get_child o k ≡ ok (some c)) × (get_in c ks ≡ ok (some v))
unfolding get_in
get_in-first o v k ks = go (get_child o k) refl
  where
    go :
        (r : Result (Option Value))
        → get_child o k ≡ r
        → after_child r (λ c. get_in c ks) ≡ ok (some v)
        → (c : Value) × (get_child o k ≡ ok (some c)) × (get_in c ks ≡ ok (some v))
    go (ok none) e h = cc
    go (ok (some c)) e h = (c, e, h)
    go (err x) e h = cc
    go panicked e h = cc

-- The same for a path that may end at nothing.
pub get_in-first_cases :
    (o : Value) (v : Option Value) (k : Key) (ks : KeyPath)
    → get_in o (k ∷ ks) ≡ ok v
    → ((get_child o k ≡ ok none) × (v ≡ none))
      ⊎ ((c : Value) × (get_child o k ≡ ok (some c)) × (get_in c ks ≡ ok v))
unfolding get_in
get_in-first_cases o v k ks = go (get_child o k) refl
  where
    go :
        (r : Result (Option Value))
        → get_child o k ≡ r
        → after_child r (λ c. get_in c ks) ≡ ok v
        → ((get_child o k ≡ ok none) × (v ≡ none))
          ⊎ ((c : Value) × (get_child o k ≡ ok (some c)) × (get_in c ks ≡ ok v))
    go (ok none) e h = inl (e, cc)
    go (ok (some c)) e h = inr (c, e, h)
    go (err x) e h = cc
    go panicked e h = cc

-- An edited child is the child of the edited parent.
pub get-changed :
    (o c c' : Value) (k : Key)
    → get_child o k ≡ ok (some c)
    → get_child (changed o (set_child o k c')) k ≡ ok (some c')
get-changed o c c' k h =
    let (o', e) = set_child_total o (some c) c' k h in rw e (get-set_child o o' c' k e)

assigned-read :
    (o v : Value) (k : Key)
    → (assigned o (set_child o k v)).1 ≡ ok tt
    → get_child (assigned o (set_child o k v)).0 k ≡ ok (some v)
assigned-read o v k = go (set_child o k v) refl
  where
    go :
        (r : Result Value)
        → set_child o k v ≡ r
        → (assigned o r).1 ≡ ok tt
        → get_child (assigned o r).0 k ≡ ok (some v)
    go (ok o') e h = get-set_child o o' v k e
    go (err e) q h = cc
    go panicked q h = cc

inside_new-read :
    (o : Value) (k : Key) (edit : Edit) (r : Result Value)
    → set_child o k (object end) ≡ r
    → (inside_new o k edit r).1 ≡ ok tt
    → (get_child (inside_new o k edit r).0 k ≡ ok (some edit.0)) × (edit.1 ≡ ok tt)
inside_new-read o k edit (ok o') e h =
    (get-changed o' (object end) edit.0 k (get-set_child o o' (object end) k e), h)
inside_new-read o k edit (err t) e h = cc
inside_new-read o k edit panicked e h = cc

-- A successful step leaves under the key what the edit of the child left, which succeeded.
set_step-read :
    (o : Value) (k : Key) (deeper : Value → Edit) (r : Result (Option Value))
    → get_child o k ≡ r
    → (set_step o k deeper r).1 ≡ ok tt
    → (c : Value) × (get_child (set_step o k deeper r).0 k ≡ ok (some (deeper c).0))
      × ((deeper c).1 ≡ ok tt)
set_step-read o k deeper (ok none) e h =
    let (e', q) = inside_new-read o k _ _ refl h in (object end, e', q)
set_step-read o k deeper (ok (some null)) e h =
    let (e', q) = inside_new-read o k _ _ refl h in (object end, e', q)
set_step-read o k deeper (ok (some c)) e h = (c, get-changed o c (deeper c).0 k e, h)
set_step-read o k deeper (err t) e h = cc
set_step-read o k deeper panicked e h = cc

get-set_in :
    (o v : Value) (k : Key) (ks : KeyPath)
    → (set_in o (k ∷ ks) v).1 ≡ ok tt
    → get_in (set_in o (k ∷ ks) v).0 (k ∷ ks) ≡ ok (some v)
unfolding set_in get_in
get-set_in o v k [] h = get_in-cons _ v k [] (assigned-read o v k h)
get-set_in o v k (k' ∷ ks) h =
    let (c, e, q) = set_step-read o k (λ c. set_in c (k' ∷ ks) v) (get_child o k) refl h in
    get_in-cons _ _ k (k' ∷ ks) e ∙ get-set_in c v k' ks q

abbrev pub IsObject : Value → Type 0
IsObject (object m) = Unit
IsObject _ = ⊥

pub as_object-fields : (o : Value) → IsObject o → object (as_object o).fields ≡ o
as_object-fields (object m) h = refl
as_object-fields null h = elim h [ ]
as_object-fields _ h = elim h [ ]

-- An assignment to a map leaves a map.
set_child-IsObject : (o o' v : Value) (k : Key) → IsObject o → set_child o k v ≡ ok o' → IsObject o'
unfolding set_child
set_child-IsObject (object m) o' v (name k) h e = subst IsObject (ok-injective _ _ e) tt
  where
    ok-injective : (a b : Value) → ok a ≡ ok b → a ≡ b
    ok-injective a b q = cc
set_child-IsObject (object m) o' v (index i) h e = cc
set_child-IsObject null o' v k h e = elim h [ ]
set_child-IsObject _ o' v k h e = elim h [ ]

pub changed-IsObject : (o c : Value) (k : Key) → IsObject o → IsObject (changed o (set_child o k c))
changed-IsObject o c k h = go (set_child o k c) refl
  where
    go : (r : Result Value) → set_child o k c ≡ r → IsObject (changed o r)
    go (ok o') e = set_child-IsObject o o' c k h e
    go (err t) e = h
    go panicked e = h

pub assigned-changed : (o : Value) (r : Result Value) → (assigned o r).0 ≡ changed o r
assigned-changed o (ok o') = refl
assigned-changed o (err t) = refl
assigned-changed o panicked = refl

inside_new-IsObject :
    (o : Value) (k : Key) (edit : Edit) (r : Result Value)
    → IsObject o
    → set_child o k (object end) ≡ r
    → IsObject (inside_new o k edit r).0
inside_new-IsObject o k edit (ok o') h e =
    changed-IsObject o' edit.0 k (set_child-IsObject o o' (object end) k h e)
inside_new-IsObject o k edit (err t) h e = h
inside_new-IsObject o k edit panicked h e = h

set_step-IsObject :
    (o : Value) (k : Key) (deeper : Value → Edit) (r : Result (Option Value))
    → IsObject o
    → IsObject (set_step o k deeper r).0
set_step-IsObject o k deeper (ok none) h = inside_new-IsObject o k _ _ h refl
set_step-IsObject o k deeper (ok (some null)) h = inside_new-IsObject o k _ _ h refl
set_step-IsObject o k deeper (ok (some c)) h = changed-IsObject o (deeper c).0 k h
set_step-IsObject o k deeper (err t) h = h
set_step-IsObject o k deeper panicked h = h

pub set_in-IsObject : (o v : Value) (ks : KeyPath) → IsObject o → IsObject (set_in o ks v).0
unfolding set_in
set_in-IsObject o v [] h = h
set_in-IsObject o v (k ∷ []) h =
    rw (assigned-changed o (set_child o k v)) (changed-IsObject o v k h)
set_in-IsObject o v (k ∷ k' ∷ ks) h =
    set_step-IsObject o k (λ c. set_in c (k' ∷ ks) v) (get_child o k) h

-- The edited object is the edited document.
pub set_nested-fields :
    (o : UnstructuredObject) (v : Value) (ks : KeyPath)
    → object (set_nested_field o v ks).0.fields ≡ (set_in (object o.fields) ks v).0
unfolding set_nested_field
set_nested-fields o v ks =
    as_object-fields (set_in (object o.fields) ks v).0 (set_in-IsObject (object o.fields) v ks tt)

-- What `SetNestedField` has set without an error, `GetNestedField` reads back at the same path.
pub get-set_nested_field :
    (o : UnstructuredObject) (v : Value) (k : Key) (ks : KeyPath)
    → (set_nested_field o v (k ∷ ks)).1 ≡ ok tt
    → get_nested_field (set_nested_field o v (k ∷ ks)).0 (k ∷ ks) ≡ ok (some v)
unfolding get_nested_field
get-set_nested_field o v k ks h =
    rw (set_nested-fields o v (k ∷ ks))
      (get-set_in (object o.fields) v k ks (unfold set_nested_field in h))
