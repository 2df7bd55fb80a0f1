-- ===== src/Core/Value.antt =====
-- Typed metadata values and per-layer field maps (crates/pktflow-core/src/value.rs). A byte string
-- is a list of numbers, and `Str` carries its UTF-8 bytes, the only view of it that the code takes.
pub mod Laws
use pktflow.Prelude.{
  ℕ, ◌≡◌, refl, Bool, List, [], ◌∷◌, ◌++◌, String, Option, none, some, ℕ_discrete, length, Eq, ◌≟◌,
  string_eq, if◌then◌else◌,
}
use pktflow.Prelude.Int.{ℤ}

mutual
  pub data Value : Type 0 where
    bytes : List ℕ → Value
    u64 : ℕ → Value
    i64 : ℤ → Value
    bool : Bool → Value
    str : List ℕ → Value
    list : Values → Value

  -- `Vec<Value>`
  pub data Values : Type 0 where
    nil : Values
    cons : Value → Values → Values

unfoldable pub Value-discrete : Discrete Value
unfolding ℕ_discrete
Value-discrete = hlevel ℕ_discrete

instance abbrev pub value_eq : Eq Value
value_eq = record { dec = Value-discrete }

abbrev pub FieldName : Type 0
FieldName = String

-- Vec-backed, in insertion order.
pub record FieldMap : Type 0 where
  pub entries : List (FieldName × Value)

abbrev pub empty : FieldMap
empty = record { entries = [] }

unfoldable pub insert_entry :
    FieldName → Value → List (FieldName × Value) → List (FieldName × Value)
insert_entry name v [] = (name, v) ∷ []
insert_entry name v ((n, w) ∷ rest) =
    if n ≟ name then (n, v) ∷ rest else (n, w) ∷ insert_entry name v rest

-- `FieldMap::insert`: the first entry of the name is replaced in place, a new name goes to the end.
unfoldable pub insert : FieldMap → FieldName → Value → FieldMap
unfolding insert_entry
insert m name v = record { entries = insert_entry name v m.entries }

unfoldable pub get_entry : FieldName → List (FieldName × Value) → Option Value
get_entry name [] = none
get_entry name ((n, v) ∷ rest) = if n ≟ name then some v else get_entry name rest

-- `FieldMap::get`
unfoldable pub get : FieldMap → FieldName → Option Value
unfolding get_entry
get m name = get_entry name m.entries

-- `FieldMap::len`
unfoldable pub len : FieldMap → ℕ
len m = length m.entries
