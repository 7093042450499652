-- ===== src/Uo/Nested/Frame.antt =====
-- An edit of one path of an object leaves the values at other paths.
use kluctl.Prelude.{
  ◌≡◌, ◌≢◌, refl, ◌∙◌, Option, none, some, [], ◌∷◌, inl, inr, Result, ok, err, panicked,
}
use kluctl.Uo.Value.{Value, null, object, end, get_field}
use kluctl.Uo.Child.{Key, name, index, KeyPath, get_child, set_child}
use kluctl.Uo.Child.Laws.{get-set_child, get-set_child_ne, set_child_total}
use kluctl.Uo.Nested.{
  UnstructuredObject, Edit, get_in, get_nested_field, changed, inside, inside_new, set_step, set_in,
  set_nested_field,
}
use kluctl.Uo.Nested.Laws.{
  get_in-cons, get_in-first, get_in-first_cases, get-changed, assigned-changed, set_nested-fields,
}

-- Two paths that part at some key.
pub data Diverge : KeyPath → KeyPath → Type 0 where
  here : {k j : Key} {ks js : KeyPath} → k ≢ j → Diverge (k ∷ ks) (j ∷ js)
  below : {k : Key} {ks js : KeyPath} → Diverge ks js → Diverge (k ∷ ks) (k ∷ js)

changed-keeps :
    (o c : Value) (d : Option Value) (k j : Key)
    → k ≢ j
    → get_child o j ≡ ok d
    → get_child (changed o (set_child o k c)) j ≡ ok d
changed-keeps o c d k j ne g = go (set_child o k c) refl
  where
    go : (r : Result Value) → set_child o k c ≡ r → get_child (changed o r) j ≡ ok d
    go (ok o') e = get-set_child_ne o o' c d k j ne e g
    go (err t) e = g
    go panicked e = g

inside_new-keeps :
    (o : Value) (d : Option Value) (k j : Key) (edit : Edit) (r : Result Value)
    → k ≢ j
    → set_child o k (object end) ≡ r
    → get_child o j ≡ ok d
    → get_child (inside_new o k edit r).0 j ≡ ok d
inside_new-keeps o d k j edit (ok o') ne e g =
    changed-keeps o' edit.0 d k j ne (get-set_child_ne o o' (object end) d k j ne e g)
inside_new-keeps o d k j edit (err t) ne e g = g
inside_new-keeps o d k j edit panicked ne e g = g

-- A step keeps the other children.
set_step-keeps :
    (o : Value) (d : Option Value) (k j : Key) (deeper : Value → Edit) (r : Result (Option Value))
    → k ≢ j
    → get_child o j ≡ ok d
    → get_child (set_step o k deeper r).0 j ≡ ok d
set_step-keeps o d k j deeper (ok none) ne g = inside_new-keeps o d k j _ _ ne refl g
set_step-keeps o d k j deeper (ok (some null)) ne g = inside_new-keeps o d k j _ _ ne refl g
set_step-keeps o d k j deeper (ok (some c)) ne g = changed-keeps o (deeper c).0 d k j ne g
set_step-keeps o d k j deeper (err t) ne g = g
set_step-keeps o d k j deeper panicked ne g = g

set_in-keeps :
    (o v : Value) (d : Option Value) (k j : Key) (ks : KeyPath)
    → k ≢ j
    → get_child o j ≡ ok d
    → get_child (set_in o (k ∷ ks) v).0 j ≡ ok d
unfolding set_in
set_in-keeps o v d k j [] ne g = rw assigned-changed (changed-keeps o v d k j ne g)
set_in-keeps o v d k j (k' ∷ ks) ne g =
    set_step-keeps o d k j (λ c. set_in c (k' ∷ ks) v) (get_child o k) ne g

-- A child that a longer path goes through is not null, so the step goes into it.
set_step-inside :
    (o c : Value) (x : Option Value) (k j : Key) (js : KeyPath) (deeper : Value → Edit)
    → get_in c (j ∷ js) ≡ ok x
    → set_step o k deeper (ok (some c)) ≡ inside o k (deeper c)
unfolding get_in get_child
set_step-inside o null x k j js deeper g = cc
set_step-inside o _ x k j js deeper g = refl

Diverge-ne_nil : {ks js : KeyPath} → Diverge ks js → (ks ≢ []) × (js ≢ [])
Diverge-ne_nil (here ne) = (λ e. cc, λ e. cc)
Diverge-ne_nil (below d) = (λ e. cc, λ e. cc)

-- The frame law one key further up.
frame_below :
    (o v x : Value) (k : Key) (ks js : KeyPath)
    → (ks ≢ []) × (js ≢ [])
    → ((c : Value) → get_in c js ≡ ok (some x) → get_in (set_in c ks v).0 js ≡ ok (some x))
    → get_in o (k ∷ js) ≡ ok (some x)
    → get_in (set_in o (k ∷ ks) v).0 (k ∷ js) ≡ ok (some x)
unfolding set_in
frame_below o v x k [] js ne ih h = absurd (ne.0 refl)
frame_below o v x k (k' ∷ ks) [] ne ih h = absurd (ne.1 refl)
frame_below o v x k (k' ∷ ks) (j ∷ js) ne ih h =
    let (c, e, q) = get_in-first o x k (j ∷ js) h in
    rw (e, set_step-inside o c (some x) k j js (λ w. set_in w (k' ∷ ks) v) q)
      (get_in-cons _ _ k (j ∷ js) (get-changed o c _ k e) ∙ ih c q)

set_in-frame :
    (o v x : Value) {ks js : KeyPath}
    → Diverge ks js
    → get_in o js ≡ ok (some x)
    → get_in (set_in o ks v).0 js ≡ ok (some x)
set_in-frame o v x (here {k} {j} {ks} {js} ne) h =
    let (c, e, q) = get_in-first o x j js h in
    get_in-cons _ c j js (set_in-keeps o v (some c) k j ks ne e) ∙ q
set_in-frame o v x (below {k} {ks} {js} d) h =
    frame_below o v x k ks js (Diverge-ne_nil d) (λ c g. set_in-frame c v x d g) h

-- `SetNestedField`, whether it succeeds or fails on the way, keeps every value that stands at a path
-- which parts from the edited one.
pub set_nested_field-frame :
    (o : UnstructuredObject) (v x : Value) (ks js : KeyPath)
    → Diverge ks js
    → get_nested_field o js ≡ ok (some x)
    → get_nested_field (set_nested_field o v ks).0 js ≡ ok (some x)
unfolding get_nested_field
set_nested_field-frame o v x ks js d h =
    rw (set_nested-fields o v ks) (set_in-frame (object o.fields) v x d h)

-- The keys of a path are names of fields.
abbrev pub Names : KeyPath → Type 0
Names [] = Unit
Names (name n ∷ ks) = Names ks
Names (index i ∷ ks) = ⊥

get_in-none :
    (o : Value) (k : Key) (ks : KeyPath) → get_child o k ≡ ok none → get_in o (k ∷ ks) ≡ ok none
unfolding get_in
get_in-none o k ks e = rw e

-- Nothing is found in a new map.
get_in-empty : (js : KeyPath) → js ≢ [] → Names js → get_in (object end) js ≡ ok none
unfolding get_in get_child get_field
get_in-empty [] ne n = absurd (ne refl)
get_in-empty (name j ∷ js) ne n = refl
get_in-empty (index i ∷ js) ne n = elim n [ ]

-- A step to a field that is not there makes it.
set_step-new :
    (o : Value) (k : Key) (deeper : Value → Edit)
    → get_child o k ≡ ok none
    → get_child (set_step o k deeper (ok none)).0 k ≡ ok (some (deeper (object end)).0)
set_step-new o k deeper e =
    let (o', q) = set_child_total o none (object end) k e in
    rw q (get-changed o' (object end) _ k (get-set_child o o' (object end) k q))

absent_below :
    (o v : Value) (k : Key) (ks js : KeyPath)
    → (ks ≢ []) × (js ≢ [])
    → Names js
    → ((c : Value) → get_in c js ≡ ok none → get_in (set_in c ks v).0 js ≡ ok none)
    → get_in o (k ∷ js) ≡ ok none
    → get_in (set_in o (k ∷ ks) v).0 (k ∷ js) ≡ ok none
unfolding set_in
absent_below o v k [] js ne n ih h = absurd (ne.0 refl)
absent_below o v k (k' ∷ ks) [] ne n ih h = absurd (ne.1 refl)
absent_below o v k (k' ∷ ks) (j ∷ js) ne n ih h = elim (get_in-first_cases o none k (j ∷ js) h) [
  | inl (e, _) ↦ rw e (
      get_in-cons _ _ k (j ∷ js) (set_step-new o k (λ w. set_in w (k' ∷ ks) v) e)
      ∙ ih (object end) (get_in-empty (j ∷ js) ne.1 n))
  | inr (c, e, q) ↦
      rw (e, set_step-inside o c none k j js (λ w. set_in w (k' ∷ ks) v) q)
        (get_in-cons _ _ k (j ∷ js) (get-changed o c _ k e) ∙ ih c q)
]

Names-tail : (k : Key) (js : KeyPath) → Names (k ∷ js) → Names js
Names-tail (name n) js h = h
Names-tail (index i) js h = elim h [ ]

-- An absent field stays absent when an edit goes past it.
set_in-absent :
    (o v : Value) {ks js : KeyPath}
    → Diverge ks js
    → Names js
    → get_in o js ≡ ok none
    → get_in (set_in o ks v).0 js ≡ ok none
set_in-absent o v (here {k} {j} {ks} {js} ne) n h = elim (get_in-first_cases o none j js h) [
  | inl (e, _) ↦ get_in-none _ j js (set_in-keeps o v none k j ks ne e)
  | inr (c, e, q) ↦ get_in-cons _ c j js (set_in-keeps o v (some c) k j ks ne e) ∙ q
]
set_in-absent o v (below {k} {ks} {js} d) n h =
    let n' = Names-tail k js n in
    absent_below o v k ks js (Diverge-ne_nil d) n' (λ c g. set_in-absent c v d n' g) h

-- Nor does `SetNestedField` make a field appear at a path of names which parts from the edited one.
pub set_nested_field-absent :
    (o : UnstructuredObject) (v : Value) (ks js : KeyPath)
    → Diverge ks js
    → Names js
    → get_nested_field o js ≡ ok none
    → get_nested_field (set_nested_field o v ks).0 js ≡ ok none
unfolding get_nested_field
set_nested_field-absent o v ks js d n h =
    rw (set_nested-fields o v ks) (set_in-absent (object o.fields) v d n h)
