-- ===== src/Uo/JsonPath.antt =====
-- pkg/utils/uo/jsonpath.go: the text of a path. The JSON path library itself is not under src/.
use Prim.Native.Char.{code}
use Prim.Native.Nat.{◌/◌, ◌%◌}
use Prim.Native.String.{◌++◌}
use text.Mathlib.Text.{◌==◌ as str_eq}
use kluctl.Prelude.{
  String, ℕ, zero, suc, Bool, true, false, ◌&&◌, ◌||◌, [], ◌∷◌, if◌then◌else◌, leb, nat_beq, ltb, ℤ,
  pos, negsuc,
}
use kluctl.Uo.Child.{Key, name, index, KeyPath}

-- `fmt.Sprintf("%d")`, with one unit of fuel for each digit.
digit : ℕ → String
digit d =
    if nat_beq d 0
    then "0"
    else if nat_beq d 1
    then "1"
    else if nat_beq d 2
    then "2"
    else if nat_beq d 3
    then "3"
    else if nat_beq d 4
    then "4"
    else if nat_beq d 5
    then "5"
    else if nat_beq d 6
    then "6"
    else if nat_beq d 7
    then "7"
    else if nat_beq d 8
    then "8"
    else "9"

show_digits : ℕ → ℕ → String
show_digits zero n = ""
show_digits (suc fuel) n =
    let rest = show_digits fuel (n / 10) in if ltb n 10 then digit n else rest ++ digit (n % 10)

unfoldable pub show_nat : ℕ → String
unfolding show_digits digit
show_nat n = show_digits (suc n) n

unfoldable pub show_int : ℤ → String
unfolding show_nat
show_int (pos n) = show_nat n
show_int (negsuc n) = "-" ++ show_nat (suc n)

is_letter : ℕ → Bool
is_letter c = (leb b'A' c && leb c b'Z') || (leb b'a' c && leb c b'z') || nat_beq c b'_'

is_identifier_char : ℕ → Bool
is_identifier_char c = is_letter c || (leb b'0' c && leb c b'9')

all_identifier_chars : String → Bool
all_identifier_chars String.[] = true
all_identifier_chars (String.◌∷◌ c s) = is_identifier_char (code c) && all_identifier_chars s

-- The expression ^[A-Za-z_][A-Za-z0-9_]+$: at least two characters.
pub is_simple_identifier : String → Bool
unfolding is_letter is_identifier_char all_identifier_chars
is_simple_identifier String.[] = false
is_simple_identifier (String.◌∷◌ c String.[]) = false
is_simple_identifier (String.◌∷◌ c (String.◌∷◌ d s)) =
    is_letter (code c) && is_identifier_char (code d) && all_identifier_chars s

-- `strings.Index(s, "\"") != -1`
has_quote : String → Bool
has_quote String.[] = false
has_quote (String.◌∷◌ c s) = nat_beq (code c) b'"' || has_quote s

add_key : String → Key → String
unfolding show_int is_simple_identifier has_quote
add_key p (index i) = p ++ "[" ++ show_int i ++ "]"
add_key p (name s) =
    if is_simple_identifier s
    then if str_eq p "" then s else p ++ "." ++ s
    else (let p' = if str_eq p "" then "$" else p in
        if has_quote s then p' ++ "['" ++ s ++ "']" else p' ++ "[\"" ++ s ++ "\"]")

add_keys : String → KeyPath → String
add_keys p [] = p
add_keys p (k ∷ kl) = add_keys (add_key p k) kl

unfoldable pub to_json_path : KeyPath → String
unfolding add_keys add_key
to_json_path kl = add_keys "" kl
