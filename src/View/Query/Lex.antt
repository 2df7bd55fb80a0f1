-- ===== src/View/Query/Lex.antt =====
-- The lexer (lex and push_word of crates/pktflow-view/src/query.rs). It walks over the bytes that
-- are left, so the index `i` is the length of the input less their number.
pub mod Positions
pub mod Outcome
pub mod Panic
use pktflow.Prelude.{
  ℕ, zero, suc, ◌+◌, ◌-◌, List, [], ◌∷◌, ◌++◌, Bool, true, false, ◌&&◌, ◌||◌, Option, none, some,
  length, take, drop, ltb, ◌==◌, ◌≟◌, bytes_eq, if◌then◌else◌, Bytes-discrete,
}
use pktflow.Prelude.Text.{
  Text, codes, to_ascii_lowercase, find_text, starts_with, is_whitespace, push_char,
  is_char_boundary,
}
use pktflow.Prelude.Result.{Result, ok, err, ◌>>=◌}
use pktflow.View.Query.{
  QueryError, Failure, query_error, panic, out_of_fuel, CmpOp, eq, ne, re, not_re, gt, ge, lt, le,
  contains, Tok, l_paren, r_paren, op, word, str, regex, Tokens,
}

-- `WORD_OPS`
abbrev pub word_ops : List (Text × CmpOp)
word_ops =
    (codes "==", eq)
    ∷ (codes "!=", ne)
    ∷ (codes "=~", re)
    ∷ (codes "!~", not_re)
    ∷ (codes ">=", ge)
    ∷ (codes "<=", le)
    ∷ (codes ">", gt)
    ∷ (codes "<", lt)
    ∷ []

-- The operator that a word is split at: its index, and its length.
abbrev pub Split : Type 0
Split = ℕ × CmpOp × ℕ

abbrev pub better : ℕ → ℕ → Option Split → Bool
better p sym_len none = true
better p sym_len (some (q, o, existing_len)) = ltb p q || ((p == q) && ltb existing_len sym_len)

abbrev pub improved : Option ℕ → CmpOp → ℕ → Option Split → Option Split
improved none o k split = split
improved (some p) o k split = if better p k split then some (p, o, k) else split

-- The loop over the operators.
unfoldable pub best_split : Text → List (Text × CmpOp) → Option Split → Option Split
unfolding find_text
best_split w [] split = split
best_split w ((sym, o) ∷ ops) split =
    best_split w ops (improved (find_text w sym) o (length sym) split)

-- `push_word`
unfoldable pub push_word : Text → ℕ → Tokens
unfolding to_ascii_lowercase
push_word w pos =
    let lowered = to_ascii_lowercase w in
    if (lowered ≟ codes "and") || (lowered ≟ codes "&&")
    then (Tok.and, pos) ∷ []
    else if (lowered ≟ codes "or") || (lowered ≟ codes "||")
    then (Tok.or, pos) ∷ []
    else if (lowered ≟ codes "not") || (lowered ≟ codes "!")
    then (Tok.not, pos) ∷ []
    else if lowered ≟ codes "where"
    then []
    else if (lowered ≟ codes "=") || (lowered ≟ codes "==") || (lowered ≟ codes "is")
    then (op eq, pos) ∷ []
    else if (lowered ≟ codes "contains") || (lowered ≟ codes "has")
    then (op contains, pos) ∷ []
    else (word w, pos) ∷ []

-- The text behind an operator is a value.
abbrev pub push_value : Text → ℕ → Tokens
push_value [] pos = []
push_value (c ∷ cs) pos = (str (c ∷ cs), pos) ∷ []

unfoldable pub word_tokens : Text → ℕ → Option Split → Tokens
unfolding push_word
word_tokens w start none = push_word w start
word_tokens w start (some (p, o, sym_len)) =
    (if ltb 0 p then push_word (take p w) start else [])
    ++ (op o, start + p) ∷ push_value (drop (p + sym_len) w) (start + p + sym_len)

abbrev pub prepended : ℕ → Option (Text × Text) → Option (Text × Text)
prepended c none = none
prepended c (some (s, rest)) = some (c ∷ s, rest)

-- What stands before the closing quote, and what stands behind it.
unfoldable pub scan_quoted : ℕ → Text → Option (Text × Text)
scan_quoted quote [] = none
scan_quoted quote (c ∷ cs) =
    if c == quote then some ([], cs) else prepended c (scan_quoted quote cs)

abbrev pub push_scanned : ℕ → Option (Text × Text) → Option (Text × Text)
push_scanned c none = none
push_scanned c (some (s, rest)) = some (push_char c s, rest)

-- The same for a `/regex/`, in which `\/` stands for a slash.
unfoldable pub scan_regex : Text → Option (Text × Text)
scan_regex [] = none
scan_regex (c ∷ []) = if c == b'/' then some ([], []) else none
scan_regex (c ∷ d ∷ cs) =
    let escaped = push_scanned b'/' (scan_regex cs) in
    let plain = push_scanned c (scan_regex (d ∷ cs)) in
    if (c == b'\\') && (d == b'/') then escaped else if c == b'/' then some ([], d ∷ cs) else plain

abbrev pub ends_word : ℕ → Bool
ends_word c = is_whitespace c || (c == b'(') || (c == b')') || (c == b'"') || (c == b'\'')

unfoldable pub scan_word : Text → Text × Text
scan_word [] = ([], [])
scan_word (c ∷ cs) =
    let (w, rest) = scan_word cs in if ends_word c then ([], c ∷ cs) else (c ∷ w, rest)

-- `&input[start..j]` panics unless both ends are on character boundaries.
abbrev pub slice : Text → Text → Text → Result Failure Text
slice from s rest = if is_char_boundary from && is_char_boundary rest then ok s else err panic

-- What one round pushes, and the bytes behind it.
abbrev pub Round : Type 0
Round = Result Failure (Tokens × Text)

unfoldable pub lex_quoted : ℕ → Text → ℕ → Round
unfolding scan_quoted
lex_quoted quote cs i = elim (scan_quoted quote cs) [
  | none ↦
      err (
        query_error
          (record { message = codes "unclosed " ++ quote ∷ codes " quote"; position = i }))
  | some (s, rest) ↦ do t ← slice cs s (quote ∷ rest); ok ((str t, i) ∷ [], rest)
]

unfoldable pub lex_regex : Text → ℕ → Round
unfolding scan_regex
lex_regex cs i = elim (scan_regex cs) [
  | none ↦ err (query_error (record { message = codes "unclosed /regex/ literal"; position = i }))
  | some (pattern, rest) ↦ ok ((regex pattern, i) ∷ [], rest)
]

unfoldable pub lex_word : Text → ℕ → Round
unfolding scan_word best_split word_tokens
lex_word from i =
    let (w, rest) = scan_word from in
    do t ← slice from w rest; ok (word_tokens t i (best_split t word_ops none), rest)

-- The body of the loop, at the byte `c`.
unfoldable pub lex_round : ℕ → Text → ℕ → Round
unfolding lex_quoted lex_regex lex_word
lex_round c cs i =
    if is_whitespace c
    then ok ([], cs)
    else if c == b'('
    then ok ((l_paren, i) ∷ [], cs)
    else if c == b')'
    then ok ((r_paren, i) ∷ [], cs)
    else if (c == b'"') || (c == b'\'')
    then lex_quoted c cs i
    else if c == b'/'
    then lex_regex cs i
    else lex_word (c ∷ cs) i

unfoldable pub lex_from : ℕ → ℕ → Text → Result Failure Tokens
unfolding lex_round
lex_from fuel len [] = ok []
lex_from zero len (c ∷ cs) = err out_of_fuel
lex_from (suc fuel) len (c ∷ cs) = do
  (toks, rest) ← lex_round c cs (len - suc (length cs))
  later ← lex_from fuel len rest
  ok (toks ++ later)

-- `lex`: a round takes a byte at least.
unfoldable pub lex : Text → Result Failure Tokens
unfolding lex_from
lex input = lex_from (length input) (length input) input
