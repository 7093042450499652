-- ===== src/Utils/OrderedMap.antt =====
-- pkg/utils/ordered_map.go: a map that remembers the order of insertion.
pub mod Laws
use kluctl.Prelude.{
  String, ℕ, ◌≡◌, Bool, true, false, Option, none, some, List, [], ◌∷◌, ◌++◌, map, Map, lookup,
  insert, has, length, get_elem?, if◌then◌else◌, string_eq,
}

pub record OrderedMapEntry (V : Type 0) : Type 0 where
  pub k : String
  pub v : V

-- `m` is nil until the first `Set`.
pub record OrderedMap (V : Type 0) : Type 0 where
  pub m : Option (Map String ℕ)
  pub l : List (OrderedMapEntry V)

-- The index map; a nil map reads as an empty one.
abbrev pub index_map : Option (Map String ℕ) → Map String ℕ
index_map none = []
index_map (some m) = m

module _ {V : Type 0} where
  -- `OrderedMap.Set`: true if the key is new.
  set_index : Option (Map String ℕ) → String → OrderedMap V → V → OrderedMap V × Bool
  set_index none k s v =
      (record { m = some ((k, 0) ∷ []); l = s.l ++ (record { k = k; v = v }) ∷ [] }, true)
  set_index (some m) k s v = if has k m then (s, false) else (
    record { m = some (insert k (length s.l) m); l = s.l ++ (record { k = k; v = v }) ∷ [] },
    true,
  )

  pub set : String → V → OrderedMap V → OrderedMap V × Bool
  unfolding set_index
  set k v s = set_index s.m k s v

  pub set_multiple : List String → V → OrderedMap V → OrderedMap V
  set_multiple [] v s = s
  set_multiple (x ∷ k) v s = set_multiple k v (set x v s).0

  pub has_key : String → OrderedMap V → Bool
  has_key v s = has v (index_map s.m)

  -- `OrderedMap.Get`: the outer `none` is the panic of an index out of range, the inner one
  -- `nil, false`.
  pub get : String → OrderedMap V → Option (Option V)
  get v s = elim (lookup v (index_map s.m)) [
    | none ↦ some none
    | some i ↦ elim (get_elem? s.l i) [ none ↦ none | some e ↦ some (some e.v) ]
  ]

  pub list_keys : OrderedMap V → List String
  list_keys s = map (λ e. e.k) s.l

  pub list_values : OrderedMap V → List V
  list_values s = map (λ e. e.v) s.l

  merge_entries : List (OrderedMapEntry V) → OrderedMap V → OrderedMap V
  merge_entries [] s = s
  merge_entries (e ∷ l) s = merge_entries l (set e.k e.v s).0

  pub merge : OrderedMap V → OrderedMap V → OrderedMap V
  unfolding merge_entries
  merge other s = merge_entries other.l s
