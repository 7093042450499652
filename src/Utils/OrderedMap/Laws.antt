-- ===== src/Utils/OrderedMap/Laws.antt =====
-- pkg/utils/ordered_map.go refines a list of entries in which the first entry of a key counts.
use mathlib.Core.List.{map-append}
use mathlib.Core.Bool.{not}
use kluctl.Prelude.{
  String, ℕ, suc, ◌≡◌, ◌≢◌, sym, ◌∙◌, refl, true, false, Option, none, some, List, [], ◌∷◌, ◌++◌,
  Map, lookup, insert, has, length, get_elem?, if◌then◌else◌, string_eq, arith, eq_iff, Bool-cases,
  inl, inr, contains-nil, lookup-insert, lookup-none, has-lookup, ◌==◌,
}
use kluctl.Utils.OrderedMap.{
  OrderedMap, OrderedMapEntry, index_map, set, set_index, get, has_key, list_keys, merge,
  merge_entries,
}

module _ {V : Type 0} where
  unfoldable pub position : String → List (OrderedMapEntry V) → Option ℕ
  position j [] = none
  position j (e ∷ l) =
      if e.k == j then some 0 else elim (position j l) [ none ↦ none | some i ↦ some (suc i) ]

  -- The abstract view: the value of the first entry with the key.
  pub find : String → List (OrderedMapEntry V) → Option V
  find j [] = none
  find j (e ∷ l) = if e.k == j then some e.v else find j l

  -- The index map and the list agree.
  pub record IsValid (s : OrderedMap V) : Type 0 where
    pub indexed : (k : String) → lookup k (index_map s.m) ≡ position k s.l
    pub fresh : s.m ≡ none → s.l ≡ []

abbrev or_else {ℓ} : {A : Type ℓ} → Option A → Option A → Option A
or_else none b = b
or_else (some a) b = some a

module _ {V : Type 0} where
  position-append :
      (j : String) (l : List (OrderedMapEntry V)) (e : OrderedMapEntry V)
      → position j (l ++ e ∷ [])
        ≡ or_else (position j l) (if e.k == j then some (length l) else none)
  unfolding position
  position-append j [] e = ground arith
  position-append j (x ∷ l) e = rw (position-append j l e) (ground arith)

  find-append :
      (j : String) (l : List (OrderedMapEntry V)) (e : OrderedMapEntry V)
      → find j (l ++ e ∷ []) ≡ or_else (find j l) (if e.k == j then some e.v else none)
  unfolding find
  find-append j [] e = refl
  find-append j (x ∷ l) e = rw (find-append j l e) (ground arith)

  -- `get` after the lookup in the index map.
  abbrev read : List (OrderedMapEntry V) → Option ℕ → Option (Option V)
  read l none = some none
  read l (some i) = elim (get_elem? l i) [ none ↦ none | some e ↦ some (some e.v) ]

  -- The index of a key leads to the value of its first entry.
  read-position :
      (j : String) (l : List (OrderedMapEntry V)) → read l (position j l) ≡ some (find j l)
  unfolding position find
  read-position j [] = refl
  read-position j (x ∷ l) = ground (arith, read-position j l)

  get-read : (j : String) (s : OrderedMap V) → get j s ≡ read s.l (lookup j (index_map s.m))
  unfolding get
  get-read j s = ground arith

  -- On a valid map `Get` never runs out of range, and returns the value of the first entry with the
  -- key, or nil and false if there is none.
  pub get-find : (j : String) (s : OrderedMap V) → IsValid s → get j s ≡ some (find j s.l)
  get-find j s h = rw (get-read j s, h.indexed j) (read-position j s.l)

  pub find-position :
      (j : String) (l : List (OrderedMapEntry V)) → position j l ≡ none → find j l ≡ none
  unfolding position find
  find-position j [] h = refl
  find-position j (x ∷ l) h = ground (arith, find-position j l)

  -- The map after an entry with a new key.
  appended : Option (Map String ℕ) → String → V → OrderedMap V → OrderedMap V
  appended m k v s = record {
    m = some (insert k (length s.l) (index_map m));
    l = s.l ++ (record { k = k; v = v }) ∷ [];
  }

  set_index-old :
      (m : Option (Map String ℕ)) (k : String) (s : OrderedMap V) (v : V)
      → has k (index_map m) ≡ true
      → set_index m k s v ≡ (s, false)
  unfolding set_index has
  set_index-old none k s v h = cc (contains-nil k)
  set_index-old (some m) k s v h = rw h

  set_index-new :
      (m : Option (Map String ℕ)) (k : String) (s : OrderedMap V) (v : V)
      → has k (index_map m) ≡ false
      → (m ≡ none → s.l ≡ [])
      → set_index m k s v ≡ (appended m k v s, true)
  unfolding set_index appended insert
  set_index-new none k s v h f = rw (f refl)
  set_index-new (some m) k s v h f = rw h

  set-old :
      (k : String) (v : V) (s : OrderedMap V)
      → has k (index_map s.m) ≡ true
      → set k v s ≡ (s, false)
  unfolding set
  set-old k v s = set_index-old s.m k s v

  set-new :
      (k : String) (v : V) (s : OrderedMap V)
      → IsValid s
      → has k (index_map s.m) ≡ false
      → set k v s ≡ (appended s.m k v s, true)
  unfolding set
  set-new k v s h e = set_index-new s.m k s v e h.fresh

  position-none :
      (k : String) (s : OrderedMap V)
      → IsValid s
      → has k (index_map s.m) ≡ false
      → position k s.l ≡ none
  position-none k s h e = sym (h.indexed k) ∙ lookup-none k (index_map s.m) e

  appended-IsValid :
      (k : String) (v : V) (s : OrderedMap V)
      → IsValid s
      → has k (index_map s.m) ≡ false
      → IsValid (appended s.m k v s)
  unfolding appended
  appended-IsValid k v s h e = record {
    indexed = λ j.
        rw (lookup-insert, h.indexed j, position-append j s.l)
          (ground (arith, position-none k s h e, eq_iff k j));
    fresh = λ n. cc;
  }

  -- `Set` keeps the index map and the list in agreement.
  pub set-IsValid : (k : String) (v : V) (s : OrderedMap V) → IsValid s → IsValid (set k v s).0
  set-IsValid k v s h = elim (Bool-cases (has k (index_map s.m))) [
    | inl old ↦ rw (set-old k v s old) h
    | inr new ↦ rw (set-new k v s h new) (appended-IsValid k v s h new)
  ]

  position-find :
      (j : String) (l : List (OrderedMapEntry V)) → find j l ≡ none → position j l ≡ none
  unfolding position find
  position-find j [] h = refl
  position-find j (x ∷ l) h = ground (arith, position-find j l)

  find-has :
      (k : String) (s : OrderedMap V) → IsValid s → has k (index_map s.m) ≡ true → find k s.l ≢ none
  find-has k s h old n = (has-lookup k (index_map s.m)).0 old (h.indexed k ∙ position-find k s.l n)

  find-fresh :
      (k : String) (s : OrderedMap V)
      → IsValid s
      → has k (index_map s.m) ≡ false
      → find k s.l ≡ none
  find-fresh k s h new = find-position k s.l (position-none k s h new)

  -- The list that a second `Set` of a key finds is the one it leaves; a new key goes to the end.
  pub find-set :
      (k j : String) (v : V) (s : OrderedMap V)
      → IsValid s
      → find j (set k v s).0.l ≡ or_else (find j s.l) (if k == j then some v else none)
  find-set k j v s h = elim (Bool-cases (has k (index_map s.m))) [
    | inl old ↦ rw (set-old k v s old) (ground (arith, eq_iff k j, find-has k s h old))
    | inr new ↦ rw (set-new k v s h new) (unfold appended in find-append j s.l _)
  ]

  get-appended :
      (k j : String) (v : V) (s : OrderedMap V)
      → IsValid s
      → has k (index_map s.m) ≡ false
      → get j (appended s.m k v s) ≡ (if k == j then some (some v) else get j s)
  get-appended k j v s h new =
      rw (get-find j _ (appended-IsValid k v s h new), get-find j s h)
        (unfold appended in
          rw (find-append j s.l _) (ground (arith, eq_iff k j, find-fresh k s h new)))

  -- On a valid map `Set` never overwrites: a key that is there keeps its value, and so does every other
  -- key; a new key gets the value.
  pub get-set :
      (k j : String) (v : V) (s : OrderedMap V)
      → IsValid s
      → get j (set k v s).0
        ≡ (if has_key k s then get j s else if k == j then some (some v) else get j s)
  unfolding has_key
  get-set k j v s h = elim (Bool-cases (has k (index_map s.m))) [
    | inl old ↦ rw (set-old k v s old, old)
    | inr new ↦ rw (set-new k v s h new, new) (get-appended k j v s h new)
  ]

  -- On a valid map the second result of `Set` says whether the key is new, and then the key is the last
  -- of `ListKeys`; otherwise the keys stay as they are.
  pub list_keys-set :
      (k : String) (v : V) (s : OrderedMap V)
      → IsValid s
      → ((set k v s).1 ≡ not (has_key k s))
        × (list_keys (set k v s).0 ≡ (if has_key k s then list_keys s else list_keys s ++ k ∷ []))
  unfolding has_key list_keys
  list_keys-set k v s h = elim (Bool-cases (has k (index_map s.m))) [
    | inl old ↦ rw (set-old k v s old, old) (refl, refl)
    | inr new ↦ rw (set-new k v s h new, new) (unfold appended in (refl, map-append _ s.l _))
  ]

  merge_entries-IsValid :
      (l : List (OrderedMapEntry V)) (s : OrderedMap V) → IsValid s → IsValid (merge_entries l s)
  unfolding merge_entries
  merge_entries-IsValid [] s h = h
  merge_entries-IsValid (e ∷ l) s h =
      merge_entries-IsValid l (set e.k e.v s).0 (set-IsValid e.k e.v s h)

  find-merge_entries :
      (j : String) (l : List (OrderedMapEntry V)) (s : OrderedMap V)
      → IsValid s
      → find j (merge_entries l s).l ≡ or_else (find j s.l) (find j l)
  unfolding merge_entries find
  find-merge_entries j [] s h = ground arith
  find-merge_entries j (e ∷ l) s h =
      rw
        (find-merge_entries j l (set e.k e.v s).0 (set-IsValid e.k e.v s h), find-set e.k j e.v s h)
        (ground arith)

  -- After `Merge` of two valid maps the receiver keeps its own values, and has the other map's value, if
  -- any, under every key that it did not have.
  pub get-merge :
      (j : String) (other s : OrderedMap V)
      → IsValid other
      → IsValid s
      → get j (merge other s) ≡ (if has_key j s then get j s else get j other)
  unfolding merge has_key
  get-merge j other s ho hs =
      rw
        (
          get-find j (merge_entries other.l s) (merge_entries-IsValid other.l s hs),
          find-merge_entries j other.l s hs,
          get-find j s hs,
          get-find j other ho,
        )
        (elim (Bool-cases (has j (index_map s.m))) [
          | inl old ↦ rw old (ground (arith, find-has j s hs old))
          | inr new ↦ rw (new, find-fresh j s hs new)
        ])
