-- ===== src/Prelude/Text.antt =====
-- Texts as the UTF-8 bytes that the program walks over.
use Prim.Native.Char.{code}
use Prim.Native.String.{String}
use Prim.Native.Nat.{ℕ, zero, suc, ◌+◌, ◌-◌, ◌/◌, ◌%◌}
use mathlib.Core.Bool.{Bool, true, false, ◌&&◌, ◌||◌}
use mathlib.Core.List.{List, [], ◌∷◌, ◌++◌, map, reverse}
use mathlib.Core.Option.{Option, none, some}
use pktflow.Prelude.Lists.{length}
use pktflow.Prelude.Tests.{ltb, leb, ◌==◌, if◌then◌else◌}

abbrev pub Text : Type 0
Text = List ℕ

-- The bytes of a literal, which is ASCII.
abbrev pub codes : String → Text
codes String.[] = []
codes (String.◌∷◌ c s) = code c ∷ codes s

-- `to_ascii_lowercase`
abbrev pub lower_byte : ℕ → ℕ
lower_byte c = if leb b'A' c && leb c b'Z' then c + 32 else c

unfoldable pub to_ascii_lowercase : Text → Text
to_ascii_lowercase t = map lower_byte t

-- `starts_with`
unfoldable pub starts_with : Text → Text → Bool
starts_with s [] = true
starts_with [] (p ∷ ps) = false
starts_with (c ∷ cs) (p ∷ ps) = (c == p) && starts_with cs ps

-- `str::find`: the index of the first occurrence.
unfoldable pub find_text : Text → Text → Option ℕ
unfolding starts_with
find_text [] sym = if starts_with [] sym then some 0 else none
find_text (c ∷ cs) sym =
    let later = find_text cs sym in
    if starts_with (c ∷ cs) sym then some 0 else elim later [ none ↦ none | some p ↦ some (suc p) ]

-- `char::is_whitespace`, of a byte read as a char.
abbrev pub is_whitespace : ℕ → Bool
is_whitespace c = (leb 9 c && leb c 13) || (c == 32) || (c == 0x85) || (c == 0xA0)

-- `String::push` of a byte read as a char, in UTF-8.
abbrev pub push_char : ℕ → Text → Text
push_char c rest = if ltb c 128 then c ∷ rest else (192 + c / 64) ∷ (128 + c % 64) ∷ rest

-- `is_char_boundary`, of the index at which `rest` starts.
abbrev pub is_char_boundary : Text → Bool
is_char_boundary [] = true
is_char_boundary (c ∷ rest) = ltb c 128 || leb 192 c

-- `ends_with`
unfoldable pub ends_with : Text → Text → Bool
unfolding starts_with
ends_with s suffix = starts_with (reverse s) (reverse suffix)

-- `strip_prefix`
unfoldable pub strip_prefix : Text → Text → Option Text
strip_prefix s [] = some s
strip_prefix [] (p ∷ ps) = none
strip_prefix (c ∷ cs) (p ∷ ps) = if c == p then strip_prefix cs ps else none

-- `str::contains`
unfoldable pub contains_text : Text → Text → Bool
unfolding find_text
contains_text s needle = elim (find_text s needle) [ none ↦ false | some p ↦ true ]

-- `join`
abbrev pub join : Text → List Text → Text
join sep [] = []
join sep (t ∷ []) = t
join sep (t ∷ u ∷ ts) = t ++ sep ++ join sep (u ∷ ts)

abbrev pub digit : ℕ → ℕ
digit d = if ltb d 10 then b'0' + d else b'a' + (d - 10)

-- The digits of a number to a base, on fuel for each digit.
unfoldable pub digits : ℕ → ℕ → ℕ → Text
digits zero base n = []
digits (suc fuel) base n =
    let front = digits fuel base (n / base) in
    if ltb n base then digit n ∷ [] else front ++ digit (n % base) ∷ []

-- `{n}` and `{n:x}`: a number has fewer digits than its size.
unfoldable pub decimal : ℕ → Text
unfolding digits
decimal n = digits (suc n) 10 n

unfoldable pub hex : ℕ → Text
unfolding digits
hex n = digits (suc n) 16 n

abbrev pub zeros : ℕ → Text
zeros zero = []
zeros (suc n) = b'0' ∷ zeros n

-- `{n:0width}` of the digits.
abbrev pub padded : ℕ → Text → Text
padded width t = zeros (width - length t) ++ t
