-- ===== src/Prelude/Result.antt =====
-- Rust's `Result`, with `?` as the bind of a `do` block.
use mathlib.Core.Path.{◌≡◌, refl}
use mathlib.Core.Logic.{◌⊎◌, inl, inr}
use mathlib.Core.Option.{Option, none, some}

pub data Result {ℓ} (E A : Type ℓ) : Type ℓ where
  ok : A → Result E A
  err : E → Result E A

infixl 5 ◌>>=◌
abbrev pub ◌>>=◌ {ℓ} : {E A B : Type ℓ} → Result E A → (A → Result E B) → Result E B
ok a >>= f = f a
err e >>= f = err e

-- `Option::ok_or`
abbrev pub ok_or {ℓ} : {E A : Type ℓ} → Option A → E → Result E A
ok_or none e = err e
ok_or (some a) e = ok a

-- A chain that ends well has gone well at its first step, and from there on.
pub >>=-eq-ok {ℓ} :
    {E A B : Type ℓ} {out : B} (first : Result E A) (later : A → Result E B)
    → (first >>= later) ≡ ok out
    → (v : A) × (first ≡ ok v) × (later v ≡ ok out)
>>=-eq-ok (err failure) later same = cc
>>=-eq-ok (ok v) later same = (v, refl, same)

pub Result-cases {ℓ} :
    {E A : Type ℓ} (r : Result E A) → ((a : A) × (r ≡ ok a)) ⊎ ((e : E) × (r ≡ err e))
Result-cases (ok a) = inl (a, refl)
Result-cases (err e) = inr (e, refl)
