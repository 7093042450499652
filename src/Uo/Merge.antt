-- ===== src/Uo/Merge.antt =====
-- pkg/utils/uo/utils.go and the methods of pkg/utils/uo/uo.go that use it: merging documents. The
-- source stores the maps of the second document in the first and shares them from then on; here a
-- document is a value.
pub mod Laws
use kluctl.Prelude.{String, Option, none, some}
use kluctl.Uo.Value.{
  Value, null, bool, int, float, string, list, object, Fields, end, field, get_field, put_field,
}
use kluctl.Uo.Nested.{UnstructuredObject}

unfoldable mutual
  -- `MergeMap`: a loop over the second map, which replaces a value unless both are maps.
  pub merge_map : Fields → Fields → Fields
  merge_map a end = a
  merge_map a (field k v b) = merge_map (put_field k (merge_value (get_field k a) v) a) b

  pub merge_value : Option Value → Value → Value
  merge_value (some (object a)) (object b) = object (merge_map a b)
  merge_value _ v = v

-- `Merge`
unfoldable pub merge : UnstructuredObject → UnstructuredObject → UnstructuredObject
merge o other = record { fields = merge_map o.fields other.fields }

-- `MergeChild`
unfoldable pub merge_child : String → UnstructuredObject → UnstructuredObject → UnstructuredObject
merge_child child o other = record {
  fields = merge_map o.fields (field child (object other.fields) end);
}
