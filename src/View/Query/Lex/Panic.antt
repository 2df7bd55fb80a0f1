-- ===== src/View/Query/Lex/Panic.antt =====
-- Where the lexer panics (lex of crates/pktflow-view/src/query.rs): it reads bytes as characters, and
-- cuts the word in front of a byte that is then white space.
use pktflow.Prelude.{ℕ, ◌≡◌, refl, ◌⊎◌, [], ◌∷◌, ◌++◌, true, false, ◌==◌, arith, inl, inr}
use pktflow.Prelude.Text.{Text, is_char_boundary}
use pktflow.Prelude.Result.{err}
use pktflow.View.Query.{panic}
use pktflow.View.Query.Lex.{scan_word, slice, lex_word, lex_round, lex_from, lex, ends_word}

abbrev pub InWord : Text → Type 0
InWord [] = Unit
InWord (c ∷ cs) = (ends_word c ≡ false) × InWord cs

-- A byte within a character of two bytes or more that is white space when it is read alone.
abbrev pub SpaceInside : ℕ → Type 0
SpaceInside b = (b ≡ 0x85) ⊎ (b ≡ 0xA0)

SpaceInside-ends_word : (b : ℕ) → SpaceInside b → ends_word b ≡ true
SpaceInside-ends_word b (inl e) = rw e refl
SpaceInside-ends_word b (inr e) = rw e refl

SpaceInside-is_char_boundary :
    (b : ℕ) (rest : Text) → SpaceInside b → is_char_boundary (b ∷ rest) ≡ false
SpaceInside-is_char_boundary b rest (inl e) = rw e refl
SpaceInside-is_char_boundary b rest (inr e) = rw e refl

scan_word-append :
    (w rest : Text) (b : ℕ)
    → InWord w
    → ends_word b ≡ true
    → scan_word (w ++ b ∷ rest) ≡ (w, b ∷ rest)
unfolding scan_word
scan_word-append [] rest b h e = rw e refl
scan_word-append (c ∷ cs) rest b (h, hs) e = rw (scan_word-append cs rest b hs e, h) refl

slice-panic : (from s rest : Text) → is_char_boundary rest ≡ false → slice from s rest ≡ err panic
slice-panic from s rest h = ground arith

lex_word-panic :
    (w rest : Text) (b i : ℕ) → InWord w → SpaceInside b → lex_word (w ++ b ∷ rest) i ≡ err panic
unfolding lex_word
lex_word-panic w rest b i h space =
    rw
      (
        scan_word-append w rest b h (SpaceInside-ends_word b space),
        slice-panic (w ++ b ∷ rest) w (b ∷ rest) (SpaceInside-is_char_boundary b rest space),
      )
      refl

lex_round-word :
    (c : ℕ) (cs : Text) (i : ℕ)
    → ends_word c ≡ false
    → (c == b'/') ≡ false
    → lex_round c cs i ≡ lex_word (c ∷ cs) i
unfolding lex_round
lex_round-word c cs i h slash = ground arith

-- If the input begins with a byte that is no slash, neither it nor the bytes behind it are white space,
-- brackets or quotes, and they are followed by the byte 0x85 or 0xA0, the lexer panics there, whatever
-- stands behind it.
pub lex-panic :
    (c : ℕ) (w : Text) (b : ℕ) (rest : Text)
    → InWord (c ∷ w)
    → (c == b'/') ≡ false
    → SpaceInside b
    → lex (c ∷ w ++ b ∷ rest) ≡ err panic
unfolding lex lex_from
lex-panic c w b rest (h, hs) slash space =
    rw (lex_round-word c (w ++ b ∷ rest) _ h slash, lex_word-panic (c ∷ w) rest b _ (h, hs) space)
      refl
