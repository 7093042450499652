-- ===== src/Prelude/Results.antt =====
-- What a Go function that may fail does: it returns, it returns an error with its text, or it panics.
use Prim.Native.String.{String}
use mathlib.Core.Path.{◌≡◌, refl}
use mathlib.Core.Logic.{◌⊎◌, inl, inr}

pub data Result {ℓ} (A : Type ℓ) : Type ℓ where
  ok : A → Result A
  err : String → Result A
  panicked : Result A

infixl 5 ◌>>=◌ ◌>>◌
abbrev pub ◌>>=◌ {ℓ κ} : {A : Type ℓ} {B : Type κ} → Result A → (A → Result B) → Result B
panicked >>= next = panicked
err message >>= next = err message
ok value >>= next = next value

abbrev pub ◌>>◌ {ℓ} : {B : Type ℓ} → Result (Unit {0}) → Result B → Result B
first >> second = first >>= λ _. second

-- `if err != nil { panic(err) }`
abbrev pub or_panic {ℓ} : {A : Type ℓ} → Result A → Result A
or_panic (ok a) = ok a
or_panic (err e) = panicked
or_panic panicked = panicked

-- Inversion of a bind that returns.
pub >>=-eq-ok {ℓ κ} :
    {A : Type ℓ} {B : Type κ} (r : Result A) (next : A → Result B) {c : B}
    → (r >>= next) ≡ ok c
    → (value : A) × (r ≡ ok value) × (next value ≡ ok c)
>>=-eq-ok panicked next q = cc
>>=-eq-ok (err message) next q = cc
>>=-eq-ok (ok value) next q = (value, refl, q)

pub Result-cases {ℓ} :
    {A : Type ℓ} (r : Result A)
    → ((a : A) × (r ≡ ok a)) ⊎ ((e : String) × (r ≡ err e)) ⊎ (r ≡ panicked)
Result-cases (ok a) = inl (a, refl)
Result-cases (err e) = inr (inl (e, refl))
Result-cases panicked = inr (inr refl)
