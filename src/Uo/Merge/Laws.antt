-- ===== src/Uo/Merge/Laws.antt =====
-- What is read after a merge of pkg/utils/uo/utils.go.
use text.Mathlib.Text.{◌==◌ as str_eq}
use kluctl.Prelude.{
  String, ◌≡◌, refl, sym, ap, ◌∙◌, subst, Bool, true, false, Option, none, some, eq_iff,
  if◌then◌else◌,
}
use kluctl.Uo.Value.{
  Value, null, bool, int, float, string, list, object, Fields, end, field, get_field, put_field,
  get-put_field,
}
use kluctl.Uo.Merge.{merge_map, merge_value}

-- A map has every key once.
unfoldable pub Distinct : Fields → Type 0
Distinct end = Unit {0}
Distinct (field k v m) = (get_field k m ≡ none) × Distinct m

-- The value of one key, from the values of the two maps: two maps are merged, and otherwise the value
-- of the second map stays.
abbrev pub merged : Option Value → Option Value → Option Value
merged old none = old
merged (some (object a)) (some (object b)) = some (object (merge_map a b))
merged old (some v) = some v

merged-merge_value :
    (old : Option Value) (v : Value) → merged old (some v) ≡ some (merge_value old v)
unfolding merge_value
merged-merge_value none v = refl
merged-merge_value (some null) v = refl
merged-merge_value (some (bool x)) v = refl
merged-merge_value (some (int x)) v = refl
merged-merge_value (some (float x)) v = refl
merged-merge_value (some (string x)) v = refl
merged-merge_value (some (list x)) v = refl
merged-merge_value (some (object a)) null = refl
merged-merge_value (some (object a)) (bool x) = refl
merged-merge_value (some (object a)) (int x) = refl
merged-merge_value (some (object a)) (float x) = refl
merged-merge_value (some (object a)) (string x) = refl
merged-merge_value (some (object a)) (list x) = refl
merged-merge_value (some (object a)) (object b) = refl

-- One round of the loop, for a key that does not come again.
merged-put_field :
    (j k : String) (v : Value) (a : Fields) (later : Option Value)
    → (k ≡ j → later ≡ none)
    → merged (get_field j (put_field k (merge_value (get_field k a) v) a)) later
      ≡ merged (get_field j a) (if str_eq k j then some v else later)
merged-put_field j k v a later once =
    rw (get-put_field k j (merge_value (get_field k a) v) a) (round (str_eq k j) refl)
  where
    round :
        (b : Bool)
        → str_eq k j ≡ b
        → merged (if b then some (merge_value (get_field k a) v) else get_field j a) later
          ≡ merged (get_field j a) (if b then some v else later)
    round true e =
        let same : k ≡ j = (eq_iff k j).0 e in
        rw (once same) (
          ap (λ i. some (merge_value (get_field i a) v)) same
          ∙ sym (merged-merge_value (get_field j a) v))
    round false e = refl

-- After MergeMap of a map whose keys are distinct, every key reads as it did before if the merged
-- map does not have it, as the merge of the two maps if both values are maps, and else as in the
-- merged map.
pub get_field-merge_map :
    (j : String) (a b : Fields)
    → Distinct b
    → get_field j (merge_map a b) ≡ merged (get_field j a) (get_field j b)
unfolding merge_map Distinct get_field
get_field-merge_map j a end d = refl
get_field-merge_map j a (field k v b) (fresh, d) =
    get_field-merge_map j (put_field k (merge_value (get_field k a) v) a) b d
    ∙ merged-put_field j k v a (get_field j b) (λ e. subst (λ i. get_field i b ≡ none) e fresh)
