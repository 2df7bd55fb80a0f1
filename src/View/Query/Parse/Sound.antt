-- ===== src/View/Query/Parse/Sound.antt =====
-- The parser returns, and the grammar derives what it returns (Parser of
-- crates/pktflow-view/src/query.rs).
use pktflow.Prelude.{
  ℕ, zero, suc, ◌+◌, ◌*◌, ◌≤◌, ◌<◌, ◌≡◌, refl, subst, [], ◌∷◌, Option, none, some, length,
  Option-cases, inl, inr, arith,
}
use pktflow.Prelude.Text.{Text}
use pktflow.Prelude.Result.{Result, ok, err, ◌>>=◌}
use pktflow.View.Query.{
  Failure, query_error, panic, out_of_fuel, Tok, l_paren, r_paren, op, word, str, regex, Tokens,
  Runtime, Expr, free_regex,
}
use pktflow.View.Query.Parse.{
  Parsed, compile, close_paren, primary, next_term, behind_or, behind_not, parse_or, or_loop,
  parse_and, and_loop, parse_unary, parse_tokens, parse_fuel, parse, ended,
}
use pktflow.View.Query.Parse.Grammar.{
  Symbol, or_query, and_query, unary_query, primary_query, Derives, one_and, more_or, one_unary,
  more_and, juxtaposed, negated, one_primary, bracketed, a_regex, a_text,
}
use pktflow.View.Query.Parse.Terms.{
  Below, pos_le, Outcome, Outcome-bind, Checked-Outcome, compile-Checked, parse_word-Outcome,
  Outcome-map, From,
}
use pktflow.View.Query.Lex.{lex}
use pktflow.View.Query.Lex.Positions.{IsAscii, Ascending, Ascending-le}
use pktflow.View.Query.Lex.Outcome.{LexOutcome, lex-LexOutcome}

Ascending-Below : (lo hi : ℕ) (ts : Tokens) → Ascending lo hi ts → Below hi ts
Ascending-Below lo hi [] a = tt
Ascending-Below lo hi ((t, p) ∷ ts) a =
    (omega (arith, Ascending-le (p + 1) hi ts a.1), Ascending-Below (p + 1) hi ts a.1)

module _ (rt : Runtime) where
  close_paren-Outcome :
      (n k : ℕ) (p : ℕ) (ts : Tokens) (inner : Expr rt) (us : Tokens)
      → Derives rt or_query ts inner us
      → length us < k
      → Below n us
      → Outcome rt n k (From rt primary_query ((l_paren, p) ∷ ts)) (close_paren rt n inner us)
  unfolding close_paren
  close_paren-Outcome n k p ts inner [] d l b = omega arith
  close_paren-Outcome n k p ts inner ((r_paren, q) ∷ us) d l b = (bracketed p q d, omega arith, b.1)
  close_paren-Outcome n k p ts inner ((l_paren, q) ∷ us) d l b = pos_le n us b.1
  close_paren-Outcome n k p ts inner ((word w, q) ∷ us) d l b = pos_le n us b.1
  close_paren-Outcome n k p ts inner ((str w, q) ∷ us) d l b = pos_le n us b.1
  close_paren-Outcome n k p ts inner ((regex w, q) ∷ us) d l b = pos_le n us b.1
  close_paren-Outcome n k p ts inner ((op o, q) ∷ us) d l b = pos_le n us b.1
  close_paren-Outcome n k p ts inner ((Tok.and, q) ∷ us) d l b = pos_le n us b.1
  close_paren-Outcome n k p ts inner ((Tok.or, q) ∷ us) d l b = pos_le n us b.1
  close_paren-Outcome n k p ts inner ((Tok.not, q) ∷ us) d l b = pos_le n us b.1

  primary-Outcome :
      (n : ℕ) (inside : Tokens → Parsed rt) (ts : Tokens)
      → Below n ts
      → ((us : Tokens)
          → suc (length us) ≤ length ts
          → Below n us
          → Outcome rt n (length us) (From rt or_query us) (inside us))
      → Outcome rt n (length ts) (From rt primary_query ts) (primary rt n inside ts)
  unfolding primary
  primary-Outcome n inside [] b h = omega arith
  primary-Outcome n inside ((l_paren, p) ∷ ts) b h =
      Outcome-bind rt n (length ts) (suc (length ts)) (From rt or_query ts) _ (inside ts) _
        (h ts (omega arith) b.1)
        (λ inner us d l below.
          close_paren-Outcome n (suc (length ts)) p ts inner us d (omega arith) below)
  primary-Outcome n inside ((regex pattern, p) ∷ ts) b h =
      Checked-Outcome rt n p (λ r. rt.build_regex pattern ≡ ok r) _ (compile rt pattern p)
        free_regex _ ts b.0 (omega arith) b.1 (compile-Checked rt pattern p)
        (λ r e. a_regex pattern p ts r e)
  primary-Outcome n inside ((str s, p) ∷ ts) b h = (a_text s p ts, omega arith, b.1)
  primary-Outcome n inside ((word w, p) ∷ ts) b h = parse_word-Outcome rt n w p ts b.1
  primary-Outcome n inside ((op o, p) ∷ ts) b h = b.0
  primary-Outcome n inside ((r_paren, p) ∷ ts) b h = b.0
  primary-Outcome n inside ((Tok.and, p) ∷ ts) b h = b.0
  primary-Outcome n inside ((Tok.or, p) ∷ ts) b h = b.0
  primary-Outcome n inside ((Tok.not, p) ∷ ts) b h = b.0

  -- Where a loop goes on at `us`, a `right` operand extends what is derived on the left.
  abbrev Continues : ℕ → ℕ → Symbol → Symbol → (Expr rt → Expr rt) → Tokens → Option Tokens → Type 0
  Continues n k outer inner join start none = Unit
  Continues n k outer inner join start (some us) =
      (length us < k)
      × Below n us
      × ((r : Expr rt) (vs : Tokens)
          → Derives rt inner us r vs
          → Derives rt outer start (join r) vs)

  next_term-Continues :
      (n : ℕ) (start ts : Tokens) (left : Expr rt)
      → Below n ts
      → Derives rt and_query start left ts
      → Continues n (suc (length ts)) and_query unary_query (Expr.and left) start (next_term ts)
  next_term-Continues n start [] left b d = tt
  next_term-Continues n start ((Tok.and, p) ∷ ts) left b d =
      (omega arith, b.1, λ r vs e. more_and p d e)
  next_term-Continues n start ((word w, p) ∷ ts) left b d =
      (omega arith, b, λ r vs e. juxtaposed d e)
  next_term-Continues n start ((str w, p) ∷ ts) left b d =
      (omega arith, b, λ r vs e. juxtaposed d e)
  next_term-Continues n start ((regex w, p) ∷ ts) left b d =
      (omega arith, b, λ r vs e. juxtaposed d e)
  next_term-Continues n start ((l_paren, p) ∷ ts) left b d =
      (omega arith, b, λ r vs e. juxtaposed d e)
  next_term-Continues n start ((Tok.not, p) ∷ ts) left b d =
      (omega arith, b, λ r vs e. juxtaposed d e)
  next_term-Continues n start ((r_paren, p) ∷ ts) left b d = tt
  next_term-Continues n start ((op o, p) ∷ ts) left b d = tt
  next_term-Continues n start ((Tok.or, p) ∷ ts) left b d = tt

  behind_or-Continues :
      (n : ℕ) (start ts : Tokens) (left : Expr rt)
      → Below n ts
      → Derives rt or_query start left ts
      → Continues n (length ts) or_query and_query (Expr.or left) start (behind_or ts)
  behind_or-Continues n start [] left b d = tt
  behind_or-Continues n start ((Tok.or, p) ∷ ts) left b d =
      (omega arith, b.1, λ r vs e. more_or p d e)
  behind_or-Continues n start ((Tok.and, p) ∷ ts) left b d = tt
  behind_or-Continues n start ((word w, p) ∷ ts) left b d = tt
  behind_or-Continues n start ((str w, p) ∷ ts) left b d = tt
  behind_or-Continues n start ((regex w, p) ∷ ts) left b d = tt
  behind_or-Continues n start ((l_paren, p) ∷ ts) left b d = tt
  behind_or-Continues n start ((Tok.not, p) ∷ ts) left b d = tt
  behind_or-Continues n start ((r_paren, p) ∷ ts) left b d = tt
  behind_or-Continues n start ((op o, p) ∷ ts) left b d = tt

  behind_not-Continues :
      (n : ℕ) (ts : Tokens)
      → Below n ts
      → Continues n (length ts) unary_query unary_query Expr.not ts (behind_not ts)
  behind_not-Continues n [] b = tt
  behind_not-Continues n ((Tok.not, p) ∷ ts) b = (omega arith, b.1, λ r vs e. negated p e)
  behind_not-Continues n ((Tok.and, p) ∷ ts) b = tt
  behind_not-Continues n ((Tok.or, p) ∷ ts) b = tt
  behind_not-Continues n ((word w, p) ∷ ts) b = tt
  behind_not-Continues n ((str w, p) ∷ ts) b = tt
  behind_not-Continues n ((regex w, p) ∷ ts) b = tt
  behind_not-Continues n ((l_paren, p) ∷ ts) b = tt
  behind_not-Continues n ((r_paren, p) ∷ ts) b = tt
  behind_not-Continues n ((op o, p) ∷ ts) b = tt

  mutual
    unfolding parse_or or_loop parse_and and_loop parse_unary

    parse_or-Outcome :
        (fuel n : ℕ) (ts : Tokens)
        → 4 * length ts + 4 ≤ fuel
        → Below n ts
        → Outcome rt n (length ts) (From rt or_query ts) (parse_or rt fuel n ts)
    parse_or-Outcome zero n ts f b = absurd (omega arith)
    parse_or-Outcome (suc fuel) n ts f b =
        Outcome-bind rt n (length ts) (length ts) (From rt and_query ts) _ (parse_and rt fuel n ts)
          _ (parse_and-Outcome fuel n ts (omega arith) b)
          (λ left us d l below.
            or_loop-Outcome fuel n (length ts) ts us left (omega arith) l below (one_and d))

    or_loop-Outcome :
        (fuel n k : ℕ) (start ts : Tokens) (left : Expr rt)
        → 4 * length ts + 1 ≤ fuel
        → length ts < k
        → Below n ts
        → Derives rt or_query start left ts
        → Outcome rt n k (From rt or_query start) (or_loop rt fuel n left ts)
    or_loop-Outcome zero n k start ts left f l b d = absurd (omega arith)
    or_loop-Outcome (suc fuel) n k start ts left f l b d = elim (Option-cases (behind_or ts)) [
      | inl e ↦ rw (e, Outcome) (d, l, b)
      | inr (us, e) ↦
          let (short, below, join) =
            subst (Continues n (length ts) or_query and_query (Expr.or left) start) e
              (behind_or-Continues n start ts left b d) in
          rw (e, Outcome)
            (Outcome-bind rt n (length us) k (From rt and_query us) (From rt or_query start)
              (parse_and rt fuel n us) _ (parse_and-Outcome fuel n us (omega arith) below)
              (λ r vs d' l' b'.
                or_loop-Outcome fuel n k start vs (Expr.or left r) (omega arith) (omega arith) b'
                  (join r vs d')))
    ]

    parse_and-Outcome :
        (fuel n : ℕ) (ts : Tokens)
        → 4 * length ts + 3 ≤ fuel
        → Below n ts
        → Outcome rt n (length ts) (From rt and_query ts) (parse_and rt fuel n ts)
    parse_and-Outcome zero n ts f b = absurd (omega arith)
    parse_and-Outcome (suc fuel) n ts f b =
        Outcome-bind rt n (length ts) (length ts) (From rt unary_query ts) _
          (parse_unary rt fuel n ts) _ (parse_unary-Outcome fuel n ts (omega arith) b)
          (λ left us d l below.
            and_loop-Outcome fuel n (length ts) ts us left (omega arith) l below (one_unary d))

    and_loop-Outcome :
        (fuel n k : ℕ) (start ts : Tokens) (left : Expr rt)
        → 4 * length ts + 3 ≤ fuel
        → length ts < k
        → Below n ts
        → Derives rt and_query start left ts
        → Outcome rt n k (From rt and_query start) (and_loop rt fuel n left ts)
    and_loop-Outcome zero n k start ts left f l b d = absurd (omega arith)
    and_loop-Outcome (suc fuel) n k start ts left f l b d = elim (Option-cases (next_term ts)) [
      | inl e ↦ rw (e, Outcome) (d, l, b)
      | inr (us, e) ↦
          let (short, below, join) =
            subst (Continues n (suc (length ts)) and_query unary_query (Expr.and left) start) e
              (next_term-Continues n start ts left b d) in
          rw (e, Outcome)
            (Outcome-bind rt n (length us) k (From rt unary_query us) (From rt and_query start)
              (parse_unary rt fuel n us) _ (parse_unary-Outcome fuel n us (omega arith) below)
              (λ r vs d' l' b'.
                and_loop-Outcome fuel n k start vs (Expr.and left r) (omega arith) (omega arith) b'
                  (join r vs d')))
    ]

    parse_unary-Outcome :
        (fuel n : ℕ) (ts : Tokens)
        → 4 * length ts + 2 ≤ fuel
        → Below n ts
        → Outcome rt n (length ts) (From rt unary_query ts) (parse_unary rt fuel n ts)
    parse_unary-Outcome zero n ts f b = absurd (omega arith)
    parse_unary-Outcome (suc fuel) n ts f b = elim (Option-cases (behind_not ts)) [
      | inl e ↦
          rw (e, Outcome)
            (Outcome-map rt n (length ts) (length ts) (From rt primary_query ts)
              (From rt unary_query ts) (primary rt n (parse_or rt fuel n) ts) (omega arith)
              (λ x us d. one_primary d)
              (primary-Outcome n (parse_or rt fuel n) ts b
                (λ us l below. parse_or-Outcome fuel n us (omega arith) below)))
      | inr (us, e) ↦
          let (short, below, join) =
            subst (Continues n (length ts) unary_query unary_query Expr.not ts) e
              (behind_not-Continues n ts b) in
          rw (e, Outcome)
            (Outcome-bind rt n (length us) (length ts) (From rt unary_query us)
              (From rt unary_query ts) (parse_unary rt fuel n us) _
              (parse_unary-Outcome fuel n us (omega arith) below)
              (λ r vs d' l' b'. (join r vs d', omega arith, b')))
    ]

  -- What a query comes to: an expression that the grammar derives from all the tokens, or an error
  -- at a position in the input or at its end.
  abbrev pub Answer : ℕ → Tokens → Result Failure (Expr rt) → Type 0
  Answer n ts (ok e) = Derives rt or_query ts e []
  Answer n ts (err (query_error x)) = x.position ≤ n
  Answer n ts (err panic) = ⊥
  Answer n ts (err out_of_fuel) = ⊥

  ended-Answer :
      (n k : ℕ) (ts : Tokens) (r : Parsed rt)
      → Outcome rt n k (From rt or_query ts) r
      → Answer n ts (r >>= (λ x. ended rt n x.0 x.1))
  ended-Answer n k ts (ok (e, [])) h = h.0
  ended-Answer n k ts (ok (e, (t, p) ∷ us)) h = h.2.0
  ended-Answer n k ts (err (query_error x)) h = h
  ended-Answer n k ts (err panic) h = h
  ended-Answer n k ts (err out_of_fuel) h = h

  pub parse_tokens-Answer : (n : ℕ) (ts : Tokens) → Below n ts → Answer n ts (parse_tokens rt n ts)
  unfolding parse_tokens
  parse_tokens-Answer n [] b = omega arith
  parse_tokens-Answer n (t ∷ ts) b =
      ended-Answer n (length (t ∷ ts)) (t ∷ ts) (parse_or rt (parse_fuel rt (t ∷ ts)) n (t ∷ ts))
        (parse_or-Outcome (parse_fuel rt (t ∷ ts)) n (t ∷ ts) (omega arith) b)

  -- `StreamQuery::parse` on the answer of the lexer.
  abbrev pub InputAnswer : Text → Result Failure (Expr rt) → Type 0
  InputAnswer input (ok e) = (ts : Tokens) × (lex input ≡ ok ts) × Derives rt or_query ts e []
  InputAnswer input (err (query_error x)) = x.position ≤ length input
  InputAnswer input (err panic) = ⊥
  InputAnswer input (err out_of_fuel) = ⊥

  Answer-input :
      (input : Text) (ts : Tokens) (r : Result Failure (Expr rt))
      → lex input ≡ ok ts
      → Answer (length input) ts r
      → InputAnswer input r
  Answer-input input ts (ok e) h a = (ts, h, a)
  Answer-input input ts (err (query_error x)) h a = a
  Answer-input input ts (err panic) h a = a
  Answer-input input ts (err out_of_fuel) h a = a

  lexed-Answer :
      (input : Text) (r : Result Failure Tokens)
      → lex input ≡ r
      → LexOutcome 0 (length input) r
      → InputAnswer input (r >>= parse_tokens rt (length input))
  lexed-Answer input (ok ts) h a =
      Answer-input input ts (parse_tokens rt (length input) ts) h
        (parse_tokens-Answer (length input) ts (Ascending-Below 0 (length input) ts a))
  lexed-Answer input (err (query_error x)) h a = omega arith
  lexed-Answer input (err panic) h a = a
  lexed-Answer input (err out_of_fuel) h a = a

  -- On an ASCII input `parse` always returns: it does not panic, and its fuel is enough. Either the
  -- grammar derives the expression that it returns from all the tokens of the input, or the position
  -- of its error lies within the input or at its end.
  pub parse-InputAnswer : (input : Text) → IsAscii input → InputAnswer input (parse rt input)
  unfolding parse
  parse-InputAnswer input ascii = lexed-Answer input (lex input) refl (lex-LexOutcome input ascii)
