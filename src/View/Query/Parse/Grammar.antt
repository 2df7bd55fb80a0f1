-- ===== src/View/Query/Parse/Grammar.antt =====
-- The grammar of the query language (the module comment of crates/pktflow-view/src/query.rs), as
-- a relation between the tokens at a place, an expression and the tokens behind it.
use pktflow.Prelude.{ℕ, ◌≡◌, ◌≢◌, ◌∷◌, true, false, Option, none, some}
use pktflow.Prelude.Text.{Text}
use pktflow.Prelude.Result.{ok}
use pktflow.View.Query.{
  CmpOp, Tok, l_paren, r_paren, op, word, str, regex, Tokens, Runtime, Expr, free_text, free_regex,
  cmp,
}
use pktflow.View.Query.Parse.{resolve, parse_number, bare_word, is_ordering, is_match_op, regex_op}

-- The symbols of the grammar.
pub data Symbol : Type 0 where
  or_query and_query unary_query primary_query : Symbol

-- The regular expression of a comparison: compiled exactly if the operator matches.
abbrev pub Compiled : (rt : Runtime) → CmpOp → Text → Option rt.Regex → Type 0
Compiled rt o raw none = is_match_op o ≡ false
Compiled rt o raw (some r) = (is_match_op o ≡ true) × (rt.build_regex raw ≡ ok r)

-- A comparison by order has a number on its right.
abbrev pub Ordered : (rt : Runtime) → CmpOp → Text → Type 0
Ordered rt o raw = is_ordering o ≡ true → parse_number rt raw ≢ none

-- A value is a word or a quoted text.
abbrev pub value_text : Tok → Option Text
value_text (word w) = some w
value_text (str w) = some w
value_text t = none

pub data Derives (rt : Runtime) : Symbol → Tokens → Expr rt → Tokens → Type 0 where
  one_and :
      {ts us : Tokens} {e : Expr rt} → Derives rt and_query ts e us → Derives rt or_query ts e us
  more_or :
      {ts us vs : Tokens} {l r : Expr rt} (p : ℕ)
      → Derives rt or_query ts l ((Tok.or, p) ∷ us)
      → Derives rt and_query us r vs
      → Derives rt or_query ts (Expr.or l r) vs
  one_unary :
      {ts us : Tokens} {e : Expr rt} → Derives rt unary_query ts e us → Derives rt and_query ts e us
  more_and :
      {ts us vs : Tokens} {l r : Expr rt} (p : ℕ)
      → Derives rt and_query ts l ((Tok.and, p) ∷ us)
      → Derives rt unary_query us r vs
      → Derives rt and_query ts (Expr.and l r) vs
  juxtaposed :
      {ts us vs : Tokens} {l r : Expr rt}
      → Derives rt and_query ts l us
      → Derives rt unary_query us r vs
      → Derives rt and_query ts (Expr.and l r) vs
  negated :
      {ts us : Tokens} {e : Expr rt} (p : ℕ)
      → Derives rt unary_query ts e us
      → Derives rt unary_query ((Tok.not, p) ∷ ts) (Expr.not e) us
  one_primary :
      {ts us : Tokens} {e : Expr rt}
      → Derives rt primary_query ts e us
      → Derives rt unary_query ts e us
  bracketed :
      {ts us : Tokens} {e : Expr rt} (p q : ℕ)
      → Derives rt or_query ts e ((r_paren, q) ∷ us)
      → Derives rt primary_query ((l_paren, p) ∷ ts) e us
  a_regex :
      (pattern : Text) (p : ℕ) (ts : Tokens) (r : rt.Regex)
      → rt.build_regex pattern ≡ ok r
      → Derives rt primary_query ((regex pattern, p) ∷ ts) (free_regex r) ts
  a_text :
      (s : Text) (p : ℕ) (ts : Tokens)
      → Derives rt primary_query ((str s, p) ∷ ts) (free_text (rt.to_lowercase s)) ts
  a_word :
      (w : Text) (p : ℕ) (ts : Tokens)
      → Derives rt primary_query ((word w, p) ∷ ts) (bare_word rt w) ts
  comparison :
      (name : Text) (p : ℕ) (o : CmpOp) (q : ℕ) (v : Tok) (raw : Text) (s : ℕ) (ts : Tokens)
      (compiled : Option rt.Regex)
      → value_text v ≡ some raw
      → Ordered rt o raw
      → Compiled rt o raw compiled
      → Derives rt primary_query
          ((word name, p) ∷ (op o, q) ∷ (v, s) ∷ ts)
          (cmp
            (resolve name)
            o
            (record { raw = raw; number = parse_number rt raw; regex = compiled }))
          ts
  regex_comparison :
      (name : Text) (p : ℕ) (o : CmpOp) (q : ℕ) (raw : Text) (s : ℕ) (ts : Tokens) (r : rt.Regex)
      → rt.build_regex raw ≡ ok r
      → Derives rt primary_query
          ((word name, p) ∷ (op o, q) ∷ (regex raw, s) ∷ ts)
          (cmp (resolve name) (regex_op o) (record { raw = raw; number = none; regex = some r }))
          ts
