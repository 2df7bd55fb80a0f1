-- ===== src/Prelude/Equality.antt =====
-- The `==` of `#[derive(PartialEq, Eq)]`: an instance holds a decision, and `ground` splits on it.
use Prim.Native.Nat.{ℕ}
use Prim.Native.String.{String}
use mathlib.Core.Path.{◌≡◌, refl}
use mathlib.Core.Bool.{Bool, true, false, ◌||◌}
use mathlib.Core.List.{List, [], ◌∷◌}
use mathlib.Core.Logic.{inl, inr}
use native.Mathlib.Decide.{ℕ_discrete}
use native.Mathlib.Omega.{arith}
use text.Mathlib.Text.{◌==◌ as str_eq}
use text.Mathlib.TextEquality.{eq_iff}
use pktflow.Prelude.Tests.{Bool-cases, if◌then◌else◌}

pub record Eq {ℓ} (A : Type ℓ) : Type ℓ where
  pub dec : Discrete A

infix 50 ◌≟◌
abbrev pub ◌≟◌ {ℓ} : {A : Type ℓ} ⦃e : Eq A⦄ → A → A → Bool
◌≟◌ ⦃e⦄ x y = elim (e.dec x y) [ yes p ↦ true | no p ↦ false ]

unfoldable pub String-discrete : Discrete String
String-discrete s t = elim (Bool-cases (str_eq s t)) [
  | inl e ↦ yes ((eq_iff s t).0 e)
  | inr e ↦ no (λ (p : s ≡ t). cc (e, (eq_iff s t).1 p))
]

instance abbrev pub string_eq : Eq String
string_eq = record { dec = String-discrete }

instance abbrev pub nat_eq : Eq ℕ
nat_eq = record { dec = ℕ_discrete }

unfoldable pub Bytes-discrete : Discrete (List ℕ)
unfolding ℕ_discrete
Bytes-discrete = hlevel ℕ_discrete

instance abbrev pub bytes_eq : Eq (List ℕ)
bytes_eq = record { dec = Bytes-discrete }

module _ {ℓ} {A : Type ℓ} ⦃e : Eq A⦄ where
  pub ≟_refl : (x : A) → (x ≟ x) ≡ true
  ≟_refl x = ground arith

  pub ≟_eq : (x y : A) → (x ≟ y) ≡ true → x ≡ y
  ≟_eq x y h = ground arith

  -- `Vec::contains`.
  abbrev pub contains : List A → A → Bool
  contains [] a = false
  contains (x ∷ xs) a = (x ≟ a) || contains xs a

  -- `Vec::retain(|c| *c != a)`.
  abbrev pub without : A → List A → List A
  without a [] = []
  without a (x ∷ xs) = let rest = without a xs in if x ≟ a then rest else x ∷ rest

  pub contains-without_self : (a : A) (xs : List A) → contains (without a xs) a ≡ false
  contains-without_self a [] = refl
  contains-without_self a (x ∷ xs) = ground (arith, contains-without_self a xs)

  pub contains-without_ne :
      (a b : A) (xs : List A) → (a ≟ b) ≡ false → contains (without a xs) b ≡ contains xs b
  contains-without_ne a b [] h = refl
  contains-without_ne a b (x ∷ xs) h = ground (arith, contains-without_ne a b xs)
