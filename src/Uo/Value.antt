-- ===== src/Uo/Value.antt =====
-- The values that a decoded YAML or JSON document is made of.
use text.Mathlib.Text.{◌==◌ as str_eq}
use kluctl.Prelude.{
  String, ℕ, zero, suc, ◌≡◌, ◌≢◌, ap, refl, Bool, Option, none, some, arith, eq_iff, if◌then◌else◌,
  ℤ,
}

-- `interface{}`. A float64 is kept as its bit pattern and never computed with.
mutual
  pub data Value : Type 0 where
    null : Value
    bool : Bool → Value
    int : ℤ → Value
    float : ℕ → Value
    string : String → Value
    list : Items → Value
    object : Fields → Value

  -- `[]interface{}`
  pub data Items : Type 0 where
    nil : Items
    cons : Value → Items → Items

  -- `map[string]interface{}`, as an association list
  pub data Fields : Type 0 where
    end : Fields
    field : String → Value → Fields → Fields

unfoldable pub items_length : Items → ℕ
items_length nil = 0
items_length (cons x xs) = suc (items_length xs)

unfoldable pub nth : Items → ℕ → Option Value
nth nil i = none
nth (cons x xs) zero = some x
nth (cons x xs) (suc i) = nth xs i

unfoldable pub set_nth : Items → ℕ → Value → Items
set_nth nil i v = nil
set_nth (cons x xs) zero v = cons v xs
set_nth (cons x xs) (suc i) v = cons x (set_nth xs i v)

-- `append(l[:i], l[i+1:]...)`
unfoldable pub remove_nth : Items → ℕ → Items
remove_nth nil i = nil
remove_nth (cons x xs) zero = xs
remove_nth (cons x xs) (suc i) = cons x (remove_nth xs i)

unfoldable pub get_field : String → Fields → Option Value
get_field k end = none
get_field k (field j v m) = if str_eq j k then some v else get_field k m

unfoldable pub put_field : String → Value → Fields → Fields
put_field k v end = field k v end
put_field k v (field j w m) = if str_eq j k then field k v m else field j w (put_field k v m)

unfoldable pub delete_field : String → Fields → Fields
delete_field k end = end
delete_field k (field j w m) =
    let rest = delete_field k m in if str_eq j k then rest else field j w rest

pub get-put_field :
    (k j : String) (v : Value) (m : Fields)
    → get_field j (put_field k v m) ≡ (if str_eq k j then some v else get_field j m)
unfolding get_field put_field
get-put_field k j v end = refl
get-put_field k j v (field i w m) =
    ground (arith, eq_iff k j, eq_iff i k, eq_iff i j, get-put_field k j v m)

pub get-delete_field :
    (k j : String) (m : Fields)
    → get_field j (delete_field k m) ≡ (if str_eq k j then none else get_field j m)
unfolding get_field delete_field
get-delete_field k j end = ground arith
get-delete_field k j (field i w m) =
    ground (arith, eq_iff k j, eq_iff i k, eq_iff i j, get-delete_field k j m)

pub nth-set_nth :
    (xs : Items) (i : ℕ) (v x : Value) → nth xs i ≡ some x → nth (set_nth xs i v) i ≡ some v
unfolding nth set_nth
nth-set_nth nil i v x h = cc
nth-set_nth (cons y xs) zero v x h = refl
nth-set_nth (cons y xs) (suc i) v x h = nth-set_nth xs i v x h

pub nth-set_nth_ne : (xs : Items) (i j : ℕ) (v : Value) → i ≢ j → nth (set_nth xs i v) j ≡ nth xs j
unfolding nth set_nth
nth-set_nth_ne nil i j v h = refl
nth-set_nth_ne (cons y xs) zero zero v h = absurd (h refl)
nth-set_nth_ne (cons y xs) zero (suc j) v h = refl
nth-set_nth_ne (cons y xs) (suc i) zero v h = refl
nth-set_nth_ne (cons y xs) (suc i) (suc j) v h = nth-set_nth_ne xs i j v (λ e. h (ap suc e))
