-- ===== src/Utils/Inclusion/Laws.antt =====
-- What `CheckIncluded` of pkg/utils/inclusion.go decides.
use kluctl.Prelude.{
  String, ◌≡◌, refl, ◌↔◌, ◌⊎◌, inl, inr, Bool, true, false, some, List, [], ◌∷◌, arith, contains,
  contains-add, contains-cons_self, contains-cons_of, contains-cons_cases, contains-nil, is_empty,
  Bool-cases, beq_refl, add,
}
use kluctl.Utils.Inclusion.{
  Inclusion, InclusionEntry, entry_eq, add_exclude, check_list, check_included,
}

-- Some entry of `l` is in the set `m`.
abbrev pub Meets : List InclusionEntry → List InclusionEntry → Type 0
Meets l m = (e : InclusionEntry) × (contains l e ≡ true) × (contains m e ≡ true)

abbrev pub entry : String → String → InclusionEntry
entry typ value = record { type = typ; value = value }

Meets-cons : (e : InclusionEntry) (l m : List InclusionEntry) → Meets l m → Meets (e ∷ l) m
Meets-cons e l m t = (t.0, contains-cons_of e t.0 l t.1, t.2)

check_list-Meets : (l m : List InclusionEntry) → check_list l m ≡ true → Meets l m
unfolding check_list
check_list-Meets [] m h = cc
check_list-Meets (e ∷ l) m h = elim (Bool-cases (contains m e)) [
  | inl hit ↦ (e, contains-cons_self e l, hit)
  | inr miss ↦ Meets-cons e l m (check_list-Meets l m (ground arith))
]

Meets-check_list :
    (l m : List InclusionEntry) (e : InclusionEntry)
    → contains l e ≡ true
    → contains m e ≡ true
    → check_list l m ≡ true
unfolding check_list
Meets-check_list [] m e h k = cc (contains-nil e)
Meets-check_list (x ∷ l) m e h k = elim (contains-cons_cases x e l h) [
  | inl same ↦ ground arith
  | inr later ↦ ground (arith, Meets-check_list l m e later k)
]

pub check_list_iff : (l m : List InclusionEntry) → (check_list l m ≡ true) ↔ Meets l m
check_list_iff l m = (check_list-Meets l m, λ t. Meets-check_list l m t.0 t.1 t.2)

-- The rule, with the two searches as given Booleans.
abbrev pub Included : Inclusion → List InclusionEntry → Bool → Type 0
Included inc l strict =
    ((inc.includes ≡ []) × (inc.excludes ≡ []))
    ⊎ ((¬ Meets l inc.excludes) × (Meets l inc.includes ⊎ ((inc.includes ≡ []) × (strict ≡ false))))

-- `check_list` fails exactly when nothing is in both lists.
check_list_none : (l m : List InclusionEntry) → check_list l m ≡ false → ¬ Meets l m
check_list_none l m h t = cc (h, Meets-check_list l m t.0 t.1 t.2)

is_empty-nil : (l : List InclusionEntry) → is_empty l ≡ true → l ≡ []
is_empty-nil [] h = refl
is_empty-nil (x ∷ l) h = cc

check_included_sound :
    (inc : Inclusion) (l : List InclusionEntry) (strict : Bool)
    → check_included (some inc) l strict ≡ true
    → Included inc l strict
unfolding check_included
check_included_sound inc l strict h = ground (
  arith,
  is_empty-nil inc.includes,
  is_empty-nil inc.excludes,
  check_list-Meets l inc.includes,
  check_list_none l inc.excludes,
)

check_included_complete :
    (inc : Inclusion) (l : List InclusionEntry) (strict : Bool)
    → Included inc l strict
    → check_included (some inc) l strict ≡ true
unfolding check_included
check_included_complete inc l strict (inl (a, b)) = rw (a, b)
check_included_complete inc l strict (inr (out, inl t)) = ground (
  arith,
  Meets-check_list l inc.includes t.0 t.1 t.2,
  λ (h : check_list l inc.excludes ≡ true). out (check_list-Meets l inc.excludes h),
)
check_included_complete inc l strict (inr (out, inr (a, b))) =
    ground
      (arith, λ (h : check_list l inc.excludes ≡ true). out (check_list-Meets l inc.excludes h))

-- With an inclusion given, `CheckIncluded` accepts the entries of an item exactly when the inclusion
-- has no include and no exclude at all, or no entry is excluded and either some entry is included or
-- there are no includes and the caller does not ask to exclude what is not included.
pub check_included_iff :
    (inc : Inclusion) (l : List InclusionEntry) (strict : Bool)
    → (check_included (some inc) l strict ≡ true) ↔ Included inc l strict
check_included_iff inc l strict =
    (check_included_sound inc l strict, check_included_complete inc l strict)

contains-add_self : (e : InclusionEntry) (s : List InclusionEntry) → contains (add e s) e ≡ true
contains-add_self e s = rw (contains-add e e s, beq_refl e)

contains-add_of :
    (e x : InclusionEntry) (s : List InclusionEntry)
    → contains s x ≡ true
    → contains (add e s) x ≡ true
contains-add_of e x s h = rw (contains-add e x s, h) (ground arith)

-- After `AddExclude` of a type and a value, an item with that entry is rejected, whatever was
-- included or excluded before.
check_included-add_exclude :
    (inc : Inclusion) (l : List InclusionEntry) (strict : Bool) (typ value : String)
    → contains l (entry typ value) ≡ true
    → check_included (some (add_exclude typ value inc)) l strict ≡ false
unfolding add_exclude check_included
check_included-add_exclude inc l strict typ value h =
    let set = add (entry typ value) inc.excludes in
    let hit : contains set (entry typ value) ≡ true =
      contains-add_self (entry typ value) inc.excludes in
    ground
      (arith, Meets-check_list l set (entry typ value) h hit, not_empty set (entry typ value) hit)
  where
    not_empty :
        (s : List InclusionEntry) (e : InclusionEntry) → contains s e ≡ true → is_empty s ≡ false
    not_empty [] e k = cc (contains-nil e)
    not_empty (x ∷ s) e k = refl

Meets-add : (e : InclusionEntry) (l m : List InclusionEntry) → Meets l m → Meets l (add e m)
Meets-add e l m t = (t.0, t.1, contains-add_of e t.0 m t.2)

add-ne_nil : (e : InclusionEntry) (s : List InclusionEntry) → add e s ≡ [] → ⊥
add-ne_nil e s h = cc (contains-nil e, contains-add_self e s, h)

Included-add_exclude :
    (inc : Inclusion) (l : List InclusionEntry) (strict : Bool) (typ value : String)
    → Included (add_exclude typ value inc) l strict
    → Included inc l strict
unfolding add_exclude
Included-add_exclude inc l strict typ value (inl (a, b)) =
    absurd (add-ne_nil (entry typ value) inc.excludes b)
Included-add_exclude inc l strict typ value (inr (out, x)) =
    inr (λ t. out (Meets-add (entry typ value) l inc.excludes t), x)

-- Excluding more never lets an item in: what `CheckIncluded` accepts after `AddExclude` it accepted
-- before.
add_exclude_antitone :
    (inc : Inclusion) (l : List InclusionEntry) (strict : Bool) (typ value : String)
    → check_included (some (add_exclude typ value inc)) l strict ≡ true
    → check_included (some inc) l strict ≡ true
add_exclude_antitone inc l strict typ value h = check_included_complete inc l strict (
    Included-add_exclude inc l strict typ value
      (check_included_sound (add_exclude typ value inc) l strict h))
