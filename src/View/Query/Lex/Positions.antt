-- ===== src/View/Query/Lex/Positions.antt =====
-- The lexer's outcome, and the positions of its tokens and errors (lex of
-- crates/pktflow-view/src/query.rs).
use pktflow.Prelude.{
  ℕ, ◌+◌, ◌≤◌, ◌<◌, ◌≡◌, refl, List, [], ◌∷◌, ◌++◌, true, Option, none, some, length, take, drop,
  length-drop, ltb, if◌then◌else◌, Bool-cases, Option-cases, inl, inr, arith,
}
use pktflow.Prelude.Text.{Text, find_text, starts_with}
use pktflow.View.Query.{CmpOp, Tokens}
use pktflow.View.Query.Lex.{Split, best_split, push_word, push_value, word_tokens, better, improved}

abbrev pub IsAscii : Text → Type 0
IsAscii [] = Unit
IsAscii (c ∷ cs) = (c < 128) × IsAscii cs

-- The positions rise strictly, from `lo` on, and stay below `hi`.
abbrev pub Ascending : ℕ → ℕ → Tokens → Type 0
Ascending lo hi [] = lo ≤ hi
Ascending lo hi ((t, p) ∷ ts) = (lo ≤ p) × Ascending (p + 1) hi ts

pub Ascending-le_lo :
    (lo mid hi : ℕ) (ts : Tokens) → lo ≤ mid → Ascending mid hi ts → Ascending lo hi ts
Ascending-le_lo lo mid hi [] h a = omega arith
Ascending-le_lo lo mid hi ((t, p) ∷ ts) h a = (omega arith, a.1)

pub Ascending-append :
    (lo mid hi : ℕ) (ts us : Tokens)
    → Ascending lo mid ts
    → Ascending mid hi us
    → Ascending lo hi (ts ++ us)
Ascending-append lo mid hi [] us a b = Ascending-le_lo lo mid hi us a b
Ascending-append lo mid hi ((t, p) ∷ ts) us a b = (a.0, Ascending-append (p + 1) mid hi ts us a.1 b)

pub Ascending-le : (lo hi : ℕ) (ts : Tokens) → Ascending lo hi ts → lo ≤ hi
Ascending-le lo hi [] a = a
Ascending-le lo hi ((t, p) ∷ ts) a = omega (arith, Ascending-le (p + 1) hi ts a.1)

starts_with-length : (w sym : Text) → starts_with w sym ≡ true → length sym ≤ length w
unfolding starts_with
starts_with-length w [] h = omega arith
starts_with-length [] (p ∷ ps) h = cc
starts_with-length (c ∷ cs) (p ∷ ps) h = ground (arith, starts_with-length cs ps)

-- An occurrence lies within the text.
find_text-length : (w sym : Text) (p : ℕ) → find_text w sym ≡ some p → p + length sym ≤ length w
unfolding find_text
find_text-length [] sym p h = ground (arith, starts_with-length [] sym)
find_text-length (c ∷ cs) sym p h = elim (Bool-cases (starts_with (c ∷ cs) sym)) [
  | inl here ↦ ground (arith, starts_with-length (c ∷ cs) sym)
  | inr no_match ↦ elim (Option-cases (find_text cs sym)) [
    | inl missing ↦ ground arith
    | inr (q, found) ↦ ground (arith, find_text-length cs sym q)
  ]
]

abbrev pub Inside : ℕ → Option Split → Type 0
Inside n none = Unit
Inside n (some (p, o, k)) = (p + k ≤ n) × (0 < k)

improved-Inside :
    (n : ℕ) (found : Option ℕ) (o : CmpOp) (k : ℕ) (split : Option Split)
    → 0 < k
    → ((p : ℕ) → found ≡ some p → p + k ≤ n)
    → Inside n split
    → Inside n (improved found o k split)
improved-Inside n none o k split pos h inside = inside
improved-Inside n (some p) o k split pos h inside = elim (Bool-cases (better p k split)) [
  | inl e ↦ rw e (h p refl, pos)
  | inr e ↦ rw e inside
]

abbrev pub NonEmpty : List (Text × CmpOp) → Type 0
NonEmpty [] = Unit
NonEmpty ((sym, o) ∷ ops) = (0 < length sym) × NonEmpty ops

pub best_split-Inside :
    (w : Text) (ops : List (Text × CmpOp)) (split : Option Split)
    → NonEmpty ops
    → Inside (length w) split
    → Inside (length w) (best_split w ops split)
unfolding best_split
best_split-Inside w [] split ne h = h
best_split-Inside w ((sym, o) ∷ ops) split ne h = best_split-Inside w ops _ ne.1 (
    improved-Inside (length w) (find_text w sym) o (length sym) split ne.0 (find_text-length w sym)
      h)

push_word-Ascending : (w : Text) (pos hi : ℕ) → pos < hi → Ascending pos hi (push_word w pos)
unfolding push_word
push_word-Ascending w pos hi h = ground arith

push_value-Ascending : (w : Text) (pos : ℕ) → Ascending pos (pos + length w) (push_value w pos)
push_value-Ascending [] pos = omega arith
push_value-Ascending (c ∷ cs) pos = omega arith

-- What stands before an operator.
push_prefix-Ascending :
    (w : Text) (start p : ℕ)
    → Ascending start (start + p) (if ltb 0 p then push_word (take p w) start else [])
push_prefix-Ascending w start p = elim (Bool-cases (ltb 0 p)) [
  | inl e ↦ rw e (push_word-Ascending (take p w) start (start + p) (ground arith))
  | inr e ↦ rw e (omega arith)
]

pub word_tokens-Ascending :
    (w : Text) (start : ℕ) (split : Option Split)
    → 0 < length w
    → Inside (length w) split
    → Ascending start (start + length w) (word_tokens w start split)
unfolding word_tokens
word_tokens-Ascending w start none ne inside =
    push_word-Ascending w start (start + length w) (omega arith)
word_tokens-Ascending w start (some (p, o, k)) ne inside =
    let len = length-drop (p + k) w in
    let value = push_value-Ascending (drop (p + k) w) (start + p + k) in
    let end : start + p + k + length (drop (p + k) w) ≡ start + length w = omega arith in
    Ascending-append start (start + p) (start + length w) _ _ (push_prefix-Ascending w start p) (
      omega arith,
      Ascending-le_lo (start + p + 1) (start + p + k) (start + length w) _ (omega arith)
          (rw (← end) value),
    )
