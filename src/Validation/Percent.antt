-- ===== src/Validation/Percent.antt =====
-- pkg/validation/validation.go: numbers that may be percentages, with Go's strconv.ParseInt.
use Prim.Native.Char.{code}
use kluctl.Prelude.{
  String, ℕ, ◌+◌, ◌-◌, ◌*◌, Bool, true, false, ◌&&◌, Option, none, some, if◌then◌else◌, ltb, leb,
  nat_beq, ℤ, pos, negsuc, wrap_int64, Result, ok, err, ◌>>=◌,
}
use kluctl.Uo.Value.{Value, int, string}

-- The number that decimal digits continue.
unfoldable pub digits_from : ℕ → String → Option ℕ
digits_from n String.[] = some n
digits_from n (String.◌∷◌ c s) =
    let rest = digits_from (n * 10 + (code c - b'0')) s in
    if leb b'0' (code c) && leb (code c) b'9' then rest else none

unfoldable pub digits : String → Option ℕ
unfolding digits_from
digits String.[] = none
digits (String.◌∷◌ c s) = digits_from 0 (String.◌∷◌ c s)

abbrev pub to_positive : Option ℕ → Option ℤ
to_positive none = none
to_positive (some n) = if ltb n 2147483648 then some (pos n) else none

abbrev pub to_negative : Option ℕ → Option ℤ
to_negative none = none
to_negative (some n) =
    if nat_beq n 0 then some (pos 0) else if leb n 2147483648 then some (negsuc (n - 1)) else none

-- `strconv.ParseInt(s, 10, 32)`: none for a syntax error, and out of the range of an int32.
unfoldable pub parse_int32 : String → Option ℤ
unfolding digits
parse_int32 String.[] = none
parse_int32 (String.◌∷◌ c s) =
    if nat_beq (code c) b'-'
    then to_negative (digits s)
    else if nat_beq (code c) b'+'
    then to_positive (digits s)
    else to_positive (digits (String.◌∷◌ c s))

-- `strings.ReplaceAll(s, "%", "")`
unfoldable pub without_percents : String → String
without_percents String.[] = ""
without_percents (String.◌∷◌ c s) =
    let rest = without_percents s in if nat_beq (code c) b'%' then rest else String.◌∷◌ c rest

abbrev pub percentage : Option ℤ → Result (ℤ × Bool)
percentage none = err "invalid syntax or out of range"
percentage (some i) = ok (i, true)

-- `parseIntOrPercent`: the number, and whether it is a percentage.
unfoldable pub parse_int_or_percent : Value → Result (ℤ × Bool)
unfolding without_percents parse_int32
parse_int_or_percent (int i) = ok (wrap_int64 i, false)
parse_int_or_percent (string s) = percentage (parse_int32 (without_percents s))
parse_int_or_percent v = err "don't know how to parse"

-- `valueFromIntOrPercent`: `percent_of i total` is `int64((float32(i) * float32(total)) / 100)`.
unfoldable pub value_from_int_or_percent : (ℤ → ℤ → ℤ) → Value → ℤ → Result ℤ
unfolding parse_int_or_percent
value_from_int_or_percent percent_of v total = do
  (i, is_percent) ← parse_int_or_percent v
  ok (if is_percent then percent_of i total else i)
