-- ===== src/View/Query/Parse/Terms.antt =====
-- The terms that the parser reads, and where it fails at them (parse_primary and parse_comparison
-- of crates/pktflow-view/src/query.rs).
use pktflow.Prelude.{
  ℕ, suc, ◌≤◌, ◌<◌, ◌≡◌, ◌≢◌, refl, sym, ap, subst, if_cases, [], ◌∷◌, Bool, true, false, Option,
  none, some, length, inl, inr, arith,
}
use pktflow.Prelude.Text.{Text}
use pktflow.Prelude.Result.{Result, ok, err, ◌>>=◌, Result-cases}
use pktflow.View.Query.{
  Failure, query_error, panic, out_of_fuel, CmpOp, Tok, l_paren, r_paren, op, word, str, regex,
  Tokens, Runtime, Expr, cmp,
}
use pktflow.View.Query.Parse.{
  Parsed, resolve, parse_number, compile, compile_for, compare_value, compare_regex, parse_value,
  parse_word, need_number, pos, is_ordering, is_match_op, regex_op,
}
use pktflow.View.Query.Parse.Grammar.{
  Symbol, primary_query, Derives, a_word, comparison, regex_comparison, Compiled, Ordered,
  value_text,
}

-- Every position is at most `n`.
abbrev pub Below : ℕ → Tokens → Type 0
Below n [] = Unit
Below n ((t, p) ∷ ts) = (p ≤ n) × Below n ts

pub pos_le : (n : ℕ) (ts : Tokens) → Below n ts → pos n ts ≤ n
pos_le n [] b = omega arith
pos_le n ((t, p) ∷ ts) b = b.0

module _ (rt : Runtime) where
  -- A result: an expression with `Q` and fewer than `k` tokens, or an error in the input.
  abbrev pub Outcome : ℕ → ℕ → (Expr rt → Tokens → Type 0) → Parsed rt → Type 0
  Outcome n k Q (ok (e, us)) = Q e us × (length us < k) × Below n us
  Outcome n k Q (err (query_error x)) = x.position ≤ n
  Outcome n k Q (err panic) = ⊥
  Outcome n k Q (err out_of_fuel) = ⊥

  pub Outcome-bind :
      (n k m : ℕ) (Q R : Expr rt → Tokens → Type 0) (r : Parsed rt)
      (f : (Expr rt × Tokens) → Parsed rt)
      → Outcome n k Q r
      → ((e : Expr rt) (us : Tokens)
          → Q e us
          → length us < k
          → Below n us
          → Outcome n m R (f (e, us)))
      → Outcome n m R (r >>= f)
  Outcome-bind n k m Q R (ok (e, us)) f (q, l, b) go = go e us q l b
  Outcome-bind n k m Q R (err (query_error x)) f h go = h
  Outcome-bind n k m Q R (err panic) f h go = h
  Outcome-bind n k m Q R (err out_of_fuel) f h go = h

  -- A part of a term: a value with `Q`, or an error at `at`.
  abbrev pub Checked : {A : Type 0} → ℕ → (A → Type 0) → Result Failure A → Type 0
  Checked at Q (ok a) = Q a
  Checked at Q (err (query_error x)) = x.position ≡ at
  Checked at Q (err panic) = ⊥
  Checked at Q (err out_of_fuel) = ⊥

  Checked-bind :
      {A B : Type 0} (at : ℕ) (Q : A → Type 0) (R : B → Type 0) (r : Result Failure A)
      (f : A → Result Failure B)
      → Checked at Q r
      → ((a : A) → Q a → Checked at R (f a))
      → Checked at R (r >>= f)
  Checked-bind at Q R (ok a) f q go = go a q
  Checked-bind at Q R (err (query_error x)) f h go = h
  Checked-bind at Q R (err panic) f h go = h
  Checked-bind at Q R (err out_of_fuel) f h go = h

  -- A term that a checked part and the tokens behind it make.
  pub Checked-Outcome :
      {A : Type 0} (n at : ℕ) (Q : A → Type 0) (R : Expr rt → Tokens → Type 0)
      (r : Result Failure A) (build : A → Expr rt) (k : ℕ) (ts : Tokens)
      → at ≤ n
      → length ts < k
      → Below n ts
      → Checked at Q r
      → ((a : A) → Q a → R (build a) ts)
      → Outcome n k R (r >>= (λ a. ok (build a, ts)))
  Checked-Outcome n at Q R (ok a) build k ts h l b q go = (go a q, l, b)
  Checked-Outcome n at Q R (err (query_error x)) build k ts h l b q go = omega arith
  Checked-Outcome n at Q R (err panic) build k ts h l b q go = q
  Checked-Outcome n at Q R (err out_of_fuel) build k ts h l b q go = q

  pub compile-Checked :
      (pattern : Text) (at : ℕ)
      → Checked at (λ r. rt.build_regex pattern ≡ ok r) (compile rt pattern at)
  unfolding compile
  compile-Checked pattern at = elim (Result-cases (rt.build_regex pattern)) [
    | inl (r, e) ↦ rw (e, compile, Checked) e
    | inr (x, e) ↦ rw (e, compile, Checked) refl
  ]

  compile_for-Checked :
      (o : CmpOp) (raw : Text) (at : ℕ) → Checked at (Compiled rt o raw) (compile_for rt o raw at)
  unfolding compile_for
  compile_for-Checked o raw at =
      if_cases (Checked at (Compiled rt o raw)) (is_match_op o) _ _
        (λ matches.
          Checked-bind at (λ r. rt.build_regex raw ≡ ok r) (Compiled rt o raw) (compile rt raw at) _
            (compile-Checked raw at) (λ r e. (matches, e)))
        (λ plain. plain)

  abbrev IsComparison : Text → CmpOp → Text → Expr rt → Type 0
  IsComparison name o raw e =
      (c : Option rt.Regex) × Compiled rt o raw c
      × Ordered rt o raw
      × (e ≡ cmp (resolve name) o (record { raw = raw; number = parse_number rt raw; regex = c }))

  need_number-Checked :
      (o : CmpOp) (b : Bool) (number : Option (rt.F64 × Text)) (raw : Text) (at : ℕ)
      → Checked at (λ m. (m ≡ number) × (b ≡ true → number ≢ none)) (need_number rt b number raw at)
  need_number-Checked o true none raw at = refl
  need_number-Checked o true (some n) raw at = (refl, λ h e. cc)
  need_number-Checked o false number raw at = (refl, λ h. absurd (cc))

  compare_value-Checked :
      (name : Text) (o : CmpOp) (raw : Text) (at : ℕ)
      → Checked at (IsComparison name o raw) (compare_value rt name o raw at)
  unfolding compare_value
  compare_value-Checked name o raw at =
      Checked-bind at
        (λ m. (m ≡ parse_number rt raw) × (is_ordering o ≡ true → parse_number rt raw ≢ none))
        (IsComparison name o raw) (need_number rt (is_ordering o) (parse_number rt raw) raw at)
        (λ m.
          compile_for rt o raw at
          >>= (λ c. ok (cmp (resolve name) o (record { raw = raw; number = m; regex = c }))))
        (need_number-Checked o (is_ordering o) (parse_number rt raw) raw at)
        (λ m h.
          Checked-bind at (Compiled rt o raw) (IsComparison name o raw) (compile_for rt o raw at)
            (λ c. ok (cmp (resolve name) o (record { raw = raw; number = m; regex = c })))
            (compile_for-Checked o raw at)
            (λ c compiled. (
              c,
              compiled,
              h.1,
              ap (λ x. cmp (resolve name) o (record { raw = raw; number = x; regex = c })) h.0,
            )))

  compare_regex-Checked :
      (name : Text) (o : CmpOp) (raw : Text) (at : ℕ)
      → Checked at
          (λ e.
            (r : rt.Regex) × (rt.build_regex raw ≡ ok r)
            × (e
                ≡ cmp
                    (resolve name)
                    (regex_op o)
                    (record { raw = raw; number = none; regex = some r })))
          (compare_regex rt name o raw at)
  unfolding compare_regex
  compare_regex-Checked name o raw at =
      Checked-bind at _ _ (compile rt raw at) _ (compile-Checked raw at) (λ r e. (r, e, refl))

  value_comparison :
      (name : Text) (p : ℕ) (o : CmpOp) (q : ℕ) (v : Tok) (raw : Text) (s : ℕ) (ts : Tokens)
      (e : Expr rt)
      → value_text v ≡ some raw
      → IsComparison name o raw e
      → Derives rt primary_query ((word name, p) ∷ (op o, q) ∷ (v, s) ∷ ts) e ts
  value_comparison name p o q v raw s ts e is_value (c, compiled, ordered, same) =
      subst (λ x. Derives rt primary_query ((word name, p) ∷ (op o, q) ∷ (v, s) ∷ ts) x ts)
        (sym same) (comparison name p o q v raw s ts c is_value ordered compiled)

  -- The tokens at a place derive `e`, and those behind it are left.
  abbrev pub From : Symbol → Tokens → Expr rt → Tokens → Type 0
  From symbol ts e us = Derives rt symbol ts e us

  parse_value-Outcome :
      (n : ℕ) (name : Text) (p : ℕ) (o : CmpOp) (q : ℕ) (ts : Tokens)
      → Below n ts
      → Outcome n
          (length ts)
          (From primary_query ((word name, p) ∷ (op o, q) ∷ ts))
          (parse_value rt n name o ts)
  unfolding parse_value
  parse_value-Outcome n name p o q [] b = omega arith
  parse_value-Outcome n name p o q ((word w, s) ∷ ts) b =
      Checked-Outcome n s (IsComparison name o w) _ (compare_value rt name o w s) (λ e. e) _ ts b.0
        (omega arith) b.1 (compare_value-Checked name o w s)
        (λ e h. value_comparison name p o q (word w) w s ts e refl h)
  parse_value-Outcome n name p o q ((str w, s) ∷ ts) b =
      Checked-Outcome n s (IsComparison name o w) _ (compare_value rt name o w s) (λ e. e) _ ts b.0
        (omega arith) b.1 (compare_value-Checked name o w s)
        (λ e h. value_comparison name p o q (str w) w s ts e refl h)
  parse_value-Outcome n name p o q ((regex w, s) ∷ ts) b =
      Checked-Outcome n s _ _ (compare_regex rt name o w s) (λ e. e) _ ts b.0 (omega arith) b.1
        (compare_regex-Checked name o w s)
        (λ e h.
          subst
            (λ x. Derives rt primary_query ((word name, p) ∷ (op o, q) ∷ (regex w, s) ∷ ts) x ts)
            (sym h.2) (regex_comparison name p o q w s ts h.0 h.1))
  parse_value-Outcome n name p o q ((l_paren, s) ∷ ts) b = b.0
  parse_value-Outcome n name p o q ((r_paren, s) ∷ ts) b = b.0
  parse_value-Outcome n name p o q ((Tok.and, s) ∷ ts) b = b.0
  parse_value-Outcome n name p o q ((Tok.or, s) ∷ ts) b = b.0
  parse_value-Outcome n name p o q ((Tok.not, s) ∷ ts) b = b.0
  parse_value-Outcome n name p o q ((op x, s) ∷ ts) b = b.0

  pub Outcome-map :
      (n k m : ℕ) (Q R : Expr rt → Tokens → Type 0) (r : Parsed rt)
      → k ≤ m
      → ((e : Expr rt) (us : Tokens) → Q e us → R e us)
      → Outcome n k Q r
      → Outcome n m R r
  Outcome-map n k m Q R (ok (e, us)) h f (q, l, b) = (f e us q, omega arith, b)
  Outcome-map n k m Q R (err (query_error x)) h f o = o
  Outcome-map n k m Q R (err panic) h f o = o
  Outcome-map n k m Q R (err out_of_fuel) h f o = o

  pub parse_word-Outcome :
      (n : ℕ) (w : Text) (p : ℕ) (ts : Tokens)
      → Below n ts
      → Outcome n (suc (length ts)) (From primary_query ((word w, p) ∷ ts)) (parse_word rt n w ts)
  unfolding parse_word
  parse_word-Outcome n w p [] b = (a_word w p [], omega arith, tt)
  parse_word-Outcome n w p ((op o, q) ∷ ts) b =
      Outcome-map n (length ts) (suc (suc (length ts))) _ _ (parse_value rt n w o ts) (omega arith)
        (λ e us d. d) (parse_value-Outcome n w p o q ts b.1)
  parse_word-Outcome n w p ((word x, q) ∷ ts) b = (a_word w p _, omega arith, b)
  parse_word-Outcome n w p ((str x, q) ∷ ts) b = (a_word w p _, omega arith, b)
  parse_word-Outcome n w p ((regex x, q) ∷ ts) b = (a_word w p _, omega arith, b)
  parse_word-Outcome n w p ((l_paren, q) ∷ ts) b = (a_word w p _, omega arith, b)
  parse_word-Outcome n w p ((r_paren, q) ∷ ts) b = (a_word w p _, omega arith, b)
  parse_word-Outcome n w p ((Tok.and, q) ∷ ts) b = (a_word w p _, omega arith, b)
  parse_word-Outcome n w p ((Tok.or, q) ∷ ts) b = (a_word w p _, omega arith, b)
  parse_word-Outcome n w p ((Tok.not, q) ∷ ts) b = (a_word w p _, omega arith, b)
