-- ===== src/View/Query/Parse.antt =====
-- The parser (Parser and StreamQuery::parse of crates/pktflow-view/src/query.rs). The tokens that
-- are left stand for the index `at`. A `bump` past the end leaves nothing, as before.
pub mod Grammar
pub mod Terms
pub mod Sound
pub mod Comparisons
pub mod Complete
use pktflow.Prelude.{
  ℕ, zero, suc, ◌+◌, ◌*◌, List, [], ◌∷◌, ◌++◌, Bool, true, false, ◌&&◌, ◌||◌, not, Option, none,
  some, length, ltb, leb, ◌==◌, ◌≟◌, bytes_eq, if◌then◌else◌, Bytes-discrete,
}
use pktflow.Prelude.Text.{Text, codes, to_ascii_lowercase}
use pktflow.Prelude.Result.{Result, ok, err, ◌>>=◌}
use pktflow.View.Query.{
  QueryError, Failure, query_error, panic, out_of_fuel, CmpOp, eq, ne, re, not_re, gt, ge, lt, le,
  contains, Tok, l_paren, r_paren, op, word, str, regex, Tokens, Flag, closed, live, root, leaf,
  condensed, Field, Runtime, Literal, Expr, free_text, free_regex, flag, cmp,
}
use pktflow.View.Query.Lex.{lex}

-- `Field::resolve`
unfoldable pub resolve : Text → Field
unfolding to_ascii_lowercase
resolve name =
    let n = to_ascii_lowercase name in
    if (n ≟ codes "proto") || (n ≟ codes "protocol")
    then Field.proto
    else if n ≟ codes "id"
    then Field.id
    else if (n ≟ codes "packets") || (n ≟ codes "pkts")
    then Field.packets
    else if n ≟ codes "bytes"
    then Field.bytes
    else if n ≟ codes "opaque"
    then Field.opaque
    else if (n ≟ codes "duration") || (n ≟ codes "dur")
    then Field.duration
    else if n ≟ codes "depth"
    then Field.depth
    else if n ≟ codes "children"
    then Field.children
    else if n ≟ codes "state"
    then Field.state
    else if (n ≟ codes "reason") || (n ≟ codes "close_reason")
    then Field.reason
    else if (n ≟ codes "endpoint") || (n ≟ codes "ep") || (n ≟ codes "host") || (n ≟ codes "addr")
    then Field.endpoint
    else if n ≟ codes "port"
    then Field.port
    else if n ≟ codes "parent"
    then Field.parent
    else if (n ≟ codes "under") || (n ≟ codes "ancestor") || (n ≟ codes "in")
    then Field.under
    else Field.custom name

abbrev pub in_number : ℕ → Bool
in_number c = (leb b'0' c && leb c b'9') || (c == b'.') || (c == b'-') || (c == b'+')

abbrev pub is_alphabetic : ℕ → Bool
is_alphabetic c = (leb b'a' c && leb c b'z') || (leb b'A' c && leb c b'Z')

-- The digits, points and signs in front, and what stands behind them.
unfoldable pub split_number : Text → Text × Text
split_number [] = ([], [])
split_number (c ∷ cs) =
    let (mag, suffix) = split_number cs in if in_number c then (c ∷ mag, suffix) else ([], c ∷ cs)

unfoldable pub all_alphabetic : Text → Bool
all_alphabetic [] = true
all_alphabetic (c ∷ cs) = is_alphabetic c && all_alphabetic cs

abbrev pub is_ordering : CmpOp → Bool
is_ordering gt = true
is_ordering ge = true
is_ordering lt = true
is_ordering le = true
is_ordering o = false

abbrev pub is_match_op : CmpOp → Bool
is_match_op re = true
is_match_op not_re = true
is_match_op o = false

-- The operator of a comparison with a `/regex/`.
abbrev pub regex_op : CmpOp → CmpOp
regex_op ne = not_re
regex_op not_re = not_re
regex_op o = re

abbrev pub fail : {A : Type 0} → Text → ℕ → Result Failure A
fail message position = err (query_error (record { message = message; position = position }))

-- `Parser::pos`
abbrev pub pos : ℕ → Tokens → ℕ
pos input_len [] = input_len
pos input_len ((t, p) ∷ ts) = p

-- Where `parse_and` goes on: behind an AND, or at a term without one.
abbrev pub next_term : Tokens → Option Tokens
next_term ((Tok.and, p) ∷ ts) = some ts
next_term ((word w, p) ∷ ts) = some ((word w, p) ∷ ts)
next_term ((str w, p) ∷ ts) = some ((str w, p) ∷ ts)
next_term ((regex w, p) ∷ ts) = some ((regex w, p) ∷ ts)
next_term ((l_paren, p) ∷ ts) = some ((l_paren, p) ∷ ts)
next_term ((Tok.not, p) ∷ ts) = some ((Tok.not, p) ∷ ts)
next_term ts = none

-- Where `parse_or` goes on.
abbrev pub behind_or : Tokens → Option Tokens
behind_or ((Tok.or, p) ∷ ts) = some ts
behind_or ts = none

abbrev pub behind_not : Tokens → Option Tokens
behind_not ((Tok.not, p) ∷ ts) = some ts
behind_not ts = none

module _ (rt : Runtime) where
  -- `parse_number`
  unfoldable pub parse_number : Text → Option (rt.F64 × Text)
  unfolding split_number all_alphabetic
  parse_number raw =
      let (mag, suffix) = split_number raw in
      if length mag == 0 then none else elim (rt.parse_f64 mag) [
        | none ↦ none
        | some f ↦ if all_alphabetic suffix then some (f, suffix) else none
      ]

  -- `Parser::compile`, at the position of the token that was taken last.
  unfoldable pub compile : Text → ℕ → Result Failure rt.Regex
  compile pattern at = elim (rt.build_regex pattern) [
    | ok r ↦ ok r
    | err e ↦ fail (codes "bad regex: " ++ e) at
  ]

  unfoldable pub compile_for : CmpOp → Text → ℕ → Result Failure (Option rt.Regex)
  unfolding compile
  compile_for o raw at = if is_match_op o then (do r ← compile raw at; ok (some r)) else ok none

  -- A comparison by order needs a number.
  abbrev pub need_number :
      Bool → Option (rt.F64 × Text) → Text → ℕ → Result Failure (Option (rt.F64 × Text))
  need_number true none raw at =
      fail (b'\'' ∷ raw ++ codes "' is not a number (>, >=, <, <= compare numbers)") at
  need_number true (some n) raw at = ok (some n)
  need_number false number raw at = ok number

  -- A comparison with a value that is a word or a text.
  unfoldable pub compare_value : Text → CmpOp → Text → ℕ → Result Failure (Expr rt)
  unfolding parse_number compile_for resolve
  compare_value name o raw value_pos = do
    number ← need_number (is_ordering o) (parse_number raw) raw value_pos
    r ← compile_for o raw value_pos
    ok (cmp (resolve name) o (record { raw = raw; number = number; regex = r }))

  unfoldable pub compare_regex : Text → CmpOp → Text → ℕ → Result Failure (Expr rt)
  unfolding compile resolve
  compare_regex name o pattern at = do
    r ← compile pattern at
    ok (cmp (resolve name) (regex_op o) (record { raw = pattern; number = none; regex = some r }))

  abbrev pub Parsed : Type 0
  Parsed = Result Failure (Expr rt × Tokens)

  -- `parse_comparison` behind the name and the operator.
  unfoldable pub parse_value : ℕ → Text → CmpOp → Tokens → Parsed
  unfolding compare_value compare_regex
  parse_value input_len name o ((word w, p) ∷ ts) = do e ← compare_value name o w p; ok (e, ts)
  parse_value input_len name o ((str w, p) ∷ ts) = do e ← compare_value name o w p; ok (e, ts)
  parse_value input_len name o ((regex w, p) ∷ ts) = do e ← compare_regex name o w p; ok (e, ts)
  parse_value input_len name o ts =
      fail (b'\'' ∷ name ++ codes "' comparison is missing its value") (pos input_len ts)

  -- A word that is no field of a comparison.
  unfoldable pub bare_word : Text → Expr rt
  unfolding to_ascii_lowercase
  bare_word w =
      let lowered = to_ascii_lowercase w in
      if lowered ≟ codes "closed"
      then flag closed
      else if (lowered ≟ codes "live") || (lowered ≟ codes "open")
      then flag live
      else if lowered ≟ codes "root"
      then flag root
      else if lowered ≟ codes "leaf"
      then flag leaf
      else if lowered ≟ codes "condensed"
      then flag condensed
      else free_text (rt.to_lowercase w)

  -- `parse_primary` at a word.
  unfoldable pub parse_word : ℕ → Text → Tokens → Parsed
  unfolding parse_value bare_word
  parse_word input_len w ((op o, p) ∷ ts) = parse_value input_len w o ts
  parse_word input_len w ts = ok (bare_word w, ts)

  -- The end of a bracket.
  unfoldable pub close_paren : ℕ → Expr rt → Tokens → Parsed
  close_paren input_len inner ((r_paren, p) ∷ ts) = ok (inner, ts)
  close_paren input_len inner [] = fail (codes "expected ')'") input_len
  close_paren input_len inner (t ∷ ts) = fail (codes "expected ')'") (pos input_len ts)

  -- `parse_primary`, with `parse_or` for the inside of a bracket.
  unfoldable pub primary : ℕ → (Tokens → Parsed) → Tokens → Parsed
  unfolding compile parse_word close_paren
  primary input_len inside [] = fail (codes "expected a search term") input_len
  primary input_len inside ((l_paren, p) ∷ ts) = do
    (inner, ts) ← inside ts
    close_paren input_len inner ts
  primary input_len inside ((regex pattern, p) ∷ ts) = do
    r ← compile pattern p
    ok (free_regex r, ts)
  primary input_len inside ((str s, p) ∷ ts) = ok (free_text (rt.to_lowercase s), ts)
  primary input_len inside ((word w, p) ∷ ts) = parse_word input_len w ts
  primary input_len inside ((op o, p) ∷ ts) =
      fail (codes "comparison operator needs a field on its left") p
  primary input_len inside ((r_paren, p) ∷ ts) = fail (codes "unexpected ')'") p
  primary input_len inside ((Tok.and, p) ∷ ts) = fail (codes "AND/OR needs a term on both sides") p
  primary input_len inside ((Tok.or, p) ∷ ts) = fail (codes "AND/OR needs a term on both sides") p
  primary input_len inside ((Tok.not, p) ∷ ts) =
      fail (codes "internal: NOT handled in parse_unary") p

  unfoldable mutual
    unfolding primary

    -- `parse_or`
    pub parse_or : ℕ → ℕ → Tokens → Parsed
    parse_or zero input_len ts = err out_of_fuel
    parse_or (suc fuel) input_len ts = do
      (left, ts) ← parse_and fuel input_len ts
      or_loop fuel input_len left ts

    pub or_loop : ℕ → ℕ → Expr rt → Tokens → Parsed
    or_loop zero input_len left ts = err out_of_fuel
    or_loop (suc fuel) input_len left ts = elim (behind_or ts) [
      | none ↦ ok (left, ts)
      | some ts ↦ do
        (right, ts) ← parse_and fuel input_len ts
        or_loop fuel input_len (Expr.or left right) ts
    ]

    -- `parse_and`
    pub parse_and : ℕ → ℕ → Tokens → Parsed
    parse_and zero input_len ts = err out_of_fuel
    parse_and (suc fuel) input_len ts = do
      (left, ts) ← parse_unary fuel input_len ts
      and_loop fuel input_len left ts

    pub and_loop : ℕ → ℕ → Expr rt → Tokens → Parsed
    and_loop zero input_len left ts = err out_of_fuel
    and_loop (suc fuel) input_len left ts = elim (next_term ts) [
      | none ↦ ok (left, ts)
      | some ts ↦ do
        (right, ts) ← parse_unary fuel input_len ts
        and_loop fuel input_len (Expr.and left right) ts
    ]

    -- `parse_unary`
    pub parse_unary : ℕ → ℕ → Tokens → Parsed
    parse_unary zero input_len ts = err out_of_fuel
    parse_unary (suc fuel) input_len ts = elim (behind_not ts) [
      | none ↦ primary input_len (parse_or fuel input_len) ts
      | some ts ↦ do (inner, ts) ← parse_unary fuel input_len ts; ok (Expr.not inner, ts)
    ]

  -- Four calls for each token, and one to begin with.
  abbrev pub parse_fuel : Tokens → ℕ
  parse_fuel ts = 4 * length ts + 4

  abbrev pub ended : ℕ → Expr rt → Tokens → Result Failure (Expr rt)
  ended input_len e [] = ok e
  ended input_len e ((t, p) ∷ ts) = fail (codes "unexpected trailing input") p

  -- `StreamQuery::parse` behind the lexer
  unfoldable pub parse_tokens : ℕ → Tokens → Result Failure (Expr rt)
  unfolding parse_or
  parse_tokens input_len [] = fail (codes "empty query") 0
  parse_tokens input_len (t ∷ ts) = do
    (e, rest) ← parse_or (parse_fuel (t ∷ ts)) input_len (t ∷ ts)
    ended input_len e rest

  -- `StreamQuery::parse`
  unfoldable pub parse : Text → Result Failure (Expr rt)
  unfolding parse_tokens lex
  parse input = do toks ← lex input; parse_tokens (length input) toks
