-- ===== src/Core/Value/Laws.antt =====
-- The laws of `FieldMap` (crates/pktflow-core/src/value.rs): lookup after insertion, the order of
-- the names, and that no name stands twice.
use pktflow.Prelude.{
  ◌≡◌, refl, true, false, List, [], ◌∷◌, ◌++◌, some, arith, ◌≟◌, string_eq, contains, if◌then◌else◌,
}
use pktflow.Core.Value.{Value, FieldName, FieldMap, insert_entry, insert, get_entry, get}

get_entry-insert :
    (n m : FieldName) (v : Value) (es : List (FieldName × Value))
    → get_entry m (insert_entry n v es) ≡ (if n ≟ m then some v else get_entry m es)
unfolding get_entry insert_entry
get_entry-insert n m v [] = refl
get_entry-insert n m v ((k, w) ∷ es) = ground (arith, get_entry-insert n m v es)

-- After an insertion the map has the new value at its name, and every other name as before.
pub get-insert :
    (f : FieldMap) (n m : FieldName) (v : Value)
    → get (insert f n v) m ≡ (if n ≟ m then some v else get f m)
unfolding get insert
get-insert f n m v = get_entry-insert n m v f.entries

abbrev pub names : List (FieldName × Value) → List FieldName
names [] = []
names ((n, v) ∷ es) = n ∷ names es

-- No name twice.
abbrev pub IsDistinct : List FieldName → Type 0
IsDistinct [] = Unit {0}
IsDistinct (n ∷ ns) = (contains ns n ≡ false) × IsDistinct ns

names-insert :
    (n : FieldName) (v : Value) (es : List (FieldName × Value))
    → names (insert_entry n v es) ≡ (if contains (names es) n then names es else names es ++ n ∷ [])
unfolding insert_entry
names-insert n v [] = refl
names-insert n v ((k, w) ∷ es) = ground (arith, names-insert n v es)

contains-append_one :
    (ns : List FieldName) (n m : FieldName)
    → contains (ns ++ n ∷ []) m ≡ (if contains ns m then true else n ≟ m)
contains-append_one [] n m = ground arith
contains-append_one (k ∷ ns) n m = ground (arith, contains-append_one ns n m)

IsDistinct-append_one :
    (ns : List FieldName) (n : FieldName)
    → IsDistinct ns
    → contains ns n ≡ false
    → IsDistinct (ns ++ n ∷ [])
IsDistinct-append_one [] n d h = (refl, tt)
IsDistinct-append_one (k ∷ ns) n d h =
    ground (arith, contains-append_one ns n k, IsDistinct-append_one ns n d.1)

-- Insertion keeps the names in the order of their first insertion, each once: a known name moves
-- nowhere, and a new one goes to the end.
pub insert-IsDistinct :
    (f : FieldMap) (n : FieldName) (v : Value)
    → IsDistinct (names f.entries)
    → IsDistinct (names (insert f n v).entries)
      × (names (insert f n v).entries
          ≡ (if contains (names f.entries) n then names f.entries else names f.entries ++ n ∷ []))
unfolding insert
insert-IsDistinct f n v d =
    ground (arith, names-insert n v f.entries, IsDistinct-append_one (names f.entries) n d)
