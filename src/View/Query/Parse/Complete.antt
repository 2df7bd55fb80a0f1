-- ===== src/View/Query/Parse/Complete.antt =====
-- The parser finds what the grammar derives (Parser of crates/pktflow-view/src/query.rs), so the
-- two agree.
use pktflow.Prelude.{
  ℕ, zero, suc, ◌+◌, ◌*◌, ◌≤◌, ◌<◌, ◌≡◌, ◌↔◌, ◌∙◌, refl, ap, subst, [], ◌∷◌, true, Option, none,
  some, length, arith,
}
use pktflow.Prelude.Text.{Text}
use pktflow.Prelude.Result.{ok, ◌>>=◌}
use pktflow.View.Query.{
  CmpOp, Tok, l_paren, r_paren, op, word, str, regex, Tokens, Runtime, Expr, free_text, free_regex,
  cmp,
}
use pktflow.View.Query.Parse.{
  Parsed, resolve, parse_number, bare_word, parse_value, parse_word, close_paren, primary,
  next_term, behind_or, behind_not, parse_or, or_loop, parse_and, and_loop, parse_unary,
  parse_tokens, parse_fuel, ended, regex_op,
}
use pktflow.View.Query.Parse.Grammar.{
  Symbol, or_query, and_query, unary_query, primary_query, Derives, one_and, more_or, one_unary,
  more_and, juxtaposed, negated, one_primary, bracketed, a_regex, a_text, a_word, comparison,
  regex_comparison, Compiled, Ordered, value_text,
}
use pktflow.View.Query.Parse.Terms.{Below}
use pktflow.View.Query.Parse.Sound.{Answer, parse_tokens-Answer}
use pktflow.View.Query.Parse.Comparisons.{
  no_op, compile_ok, compare_regex_ok, parse_value_ok, parse_word_ok,
}

module _ (rt : Runtime) where
  -- Every derivation begins at a term.
  abbrev StartsTerm : Tokens → Type 0
  StartsTerm ts = (next_term ts ≡ some ts) × (no_op ts ≡ true)

  Derives-StartsTerm :
      {symbol : Symbol} {ts us : Tokens} {e : Expr rt} → Derives rt symbol ts e us → StartsTerm ts
  Derives-StartsTerm (one_and d) = Derives-StartsTerm d
  Derives-StartsTerm (more_or p d e) = Derives-StartsTerm d
  Derives-StartsTerm (one_unary d) = Derives-StartsTerm d
  Derives-StartsTerm (more_and p d e) = Derives-StartsTerm d
  Derives-StartsTerm (juxtaposed d e) = Derives-StartsTerm d
  Derives-StartsTerm (negated p d) = (refl, refl)
  Derives-StartsTerm (one_primary d) = Derives-StartsTerm d
  Derives-StartsTerm (bracketed p q d) = (refl, refl)
  Derives-StartsTerm (a_regex pattern p ts r h) = (refl, refl)
  Derives-StartsTerm (a_text x p ts) = (refl, refl)
  Derives-StartsTerm (a_word w p ts) = (refl, refl)
  Derives-StartsTerm (comparison name p o q v raw x ts c h k m) = (refl, refl)
  Derives-StartsTerm (regex_comparison name p o q raw x ts r h) = (refl, refl)

  Derives-length :
      {symbol : Symbol} {ts us : Tokens} {e : Expr rt}
      → Derives rt symbol ts e us
      → length us < length ts
  Derives-length (one_and d) = Derives-length d
  Derives-length (more_or p d e) = omega (arith, Derives-length d, Derives-length e)
  Derives-length (one_unary d) = Derives-length d
  Derives-length (more_and p d e) = omega (arith, Derives-length d, Derives-length e)
  Derives-length (juxtaposed d e) = omega (arith, Derives-length d, Derives-length e)
  Derives-length (negated p d) = omega (arith, Derives-length d)
  Derives-length (one_primary d) = Derives-length d
  Derives-length (bracketed p q d) = omega (arith, Derives-length d)
  Derives-length (a_regex pattern p ts r h) = omega arith
  Derives-length (a_text x p ts) = omega arith
  Derives-length (a_word w p ts) = omega arith
  Derives-length (comparison name p o q v raw x ts c h k m) = omega arith
  Derives-length (regex_comparison name p o q raw x ts r h) = omega arith

  -- The fuel for a symbol, what must stand behind it, and how its function runs on a derivation.
  abbrev need : Symbol → Tokens → ℕ
  need or_query ts = 4 * length ts + 4
  need and_query ts = 4 * length ts + 3
  need unary_query ts = 4 * length ts + 2
  need primary_query ts = 4 * length ts

  abbrev Behind : Symbol → Tokens → Type 0
  Behind or_query us = (next_term us ≡ none) × (no_op us ≡ true)
  Behind and_query us = no_op us ≡ true
  Behind unary_query us = no_op us ≡ true
  Behind primary_query us = no_op us ≡ true

  abbrev Runs : Symbol → ℕ → ℕ → Tokens → Expr rt → Tokens → Type 0
  Runs or_query f n ts e us =
      (g : ℕ) × (4 * length us ≤ g) × (parse_or rt f n ts ≡ or_loop rt (suc g) n e us)
  Runs and_query f n ts e us =
      (g : ℕ) × (4 * length us + 2 ≤ g) × (parse_and rt f n ts ≡ and_loop rt (suc g) n e us)
  Runs unary_query f n ts e us = parse_unary rt f n ts ≡ ok (e, us)
  Runs primary_query f n ts e us = primary rt n (parse_or rt f n) ts ≡ ok (e, us)

  and_stops :
      (g n : ℕ) (e : Expr rt) (us : Tokens)
      → next_term us ≡ none
      → and_loop rt (suc g) n e us ≡ ok (e, us)
  unfolding and_loop
  and_stops g n e us h = rw (h, and_loop) refl

  or_stops :
      (g n : ℕ) (e : Expr rt) (us : Tokens)
      → behind_or us ≡ none
      → or_loop rt (suc g) n e us ≡ ok (e, us)
  unfolding or_loop
  or_stops g n e us h = rw (h, or_loop) refl

  or_loop_or :
      (g n p : ℕ) (l r : Expr rt) (us vs : Tokens)
      → parse_and rt g n us ≡ ok (r, vs)
      → or_loop rt (suc g) n l ((Tok.or, p) ∷ us) ≡ or_loop rt g n (Expr.or l r) vs
  unfolding or_loop
  or_loop_or g n p l r us vs h = ap (λ x. x >>= (λ y. or_loop rt g n (Expr.or l y.0) y.1)) h

  and_loop_next :
      (g n : ℕ) (l r : Expr rt) (ts us vs : Tokens)
      → next_term ts ≡ some us
      → parse_unary rt g n us ≡ ok (r, vs)
      → and_loop rt (suc g) n l ts ≡ and_loop rt g n (Expr.and l r) vs
  unfolding and_loop
  and_loop_next g n l r ts us vs h k =
      rw (h, and_loop) (ap (λ x. x >>= (λ y. and_loop rt g n (Expr.and l y.0) y.1)) k)

  parse_or_first :
      (g n : ℕ) (e : Expr rt) (ts us : Tokens)
      → parse_and rt g n ts ≡ ok (e, us)
      → parse_or rt (suc g) n ts ≡ or_loop rt g n e us
  unfolding parse_or
  parse_or_first g n e ts us h = ap (λ x. x >>= (λ y. or_loop rt g n y.0 y.1)) h

  parse_and_first :
      (g n : ℕ) (e : Expr rt) (ts us : Tokens)
      → parse_unary rt g n ts ≡ ok (e, us)
      → parse_and rt (suc g) n ts ≡ and_loop rt g n e us
  unfolding parse_and
  parse_and_first g n e ts us h = ap (λ x. x >>= (λ y. and_loop rt g n y.0 y.1)) h

  parse_unary_not :
      (g n p : ℕ) (e : Expr rt) (ts us : Tokens)
      → parse_unary rt g n ts ≡ ok (e, us)
      → parse_unary rt (suc g) n ((Tok.not, p) ∷ ts) ≡ ok (Expr.not e, us)
  unfolding parse_unary
  parse_unary_not g n p e ts us h = ap (λ x. x >>= (λ y. ok (Expr.not y.0, y.1))) h

  parse_unary-primary :
      (g n : ℕ) (e : Expr rt) (ts us : Tokens)
      → behind_not ts ≡ none
      → primary rt n (parse_or rt g n) ts ≡ ok (e, us)
      → parse_unary rt (suc g) n ts ≡ ok (e, us)
  unfolding parse_unary
  parse_unary-primary g n e ts us h k = rw (h, parse_unary) k

  primary-behind_not :
      {ts us : Tokens} {e : Expr rt} → Derives rt primary_query ts e us → behind_not ts ≡ none
  primary-behind_not (bracketed p q d) = refl
  primary-behind_not (a_regex pattern p ts r h) = refl
  primary-behind_not (a_text x p ts) = refl
  primary-behind_not (a_word w p ts) = refl
  primary-behind_not (comparison name p o q v raw x ts c h k m) = refl
  primary-behind_not (regex_comparison name p o q raw x ts r h) = refl

  bracket_ok :
      (f n p q : ℕ) (e : Expr rt) (ts us : Tokens)
      → parse_or rt f n ts ≡ ok (e, (r_paren, q) ∷ us)
      → primary rt n (parse_or rt f n) ((l_paren, p) ∷ ts) ≡ ok (e, us)
  unfolding primary close_paren
  bracket_ok f n p q e ts us h = ap (λ x. x >>= (λ y. close_paren rt n y.0 y.1)) h

  regex_ok :
      (f n p : ℕ) (pattern : Text) (r : rt.Regex) (ts : Tokens)
      → rt.build_regex pattern ≡ ok r
      → primary rt n (parse_or rt f n) ((regex pattern, p) ∷ ts) ≡ ok (free_regex r, ts)
  unfolding primary
  regex_ok f n p pattern r ts h =
      ap (λ x. x >>= (λ y. ok (free_regex y, ts))) (compile_ok rt pattern p r h)

  word_ok :
      (f n p : ℕ) (w : Text) (ts : Tokens)
      → no_op ts ≡ true
      → primary rt n (parse_or rt f n) ((word w, p) ∷ ts) ≡ ok (bare_word rt w, ts)
  unfolding primary
  word_ok f n p w ts h = parse_word_ok rt n w ts h

  comparison_ok :
      (f n p q : ℕ) (name : Text) (o : CmpOp) (v : Tok) (raw : Text) (x : ℕ) (ts : Tokens)
      (c : Option rt.Regex)
      → value_text v ≡ some raw
      → Ordered rt o raw
      → Compiled rt o raw c
      → primary rt n (parse_or rt f n) ((word name, p) ∷ (op o, q) ∷ (v, x) ∷ ts)
        ≡ ok (
          cmp (resolve name) o (record { raw = raw; number = parse_number rt raw; regex = c }),
          ts,
        )
  unfolding primary parse_word
  comparison_ok f n p q name o v raw x ts c h k m = parse_value_ok rt n name o v raw x ts c h k m

  regex_comparison_ok :
      (f n p q : ℕ) (name : Text) (o : CmpOp) (raw : Text) (x : ℕ) (ts : Tokens) (r : rt.Regex)
      → rt.build_regex raw ≡ ok r
      → primary rt n (parse_or rt f n) ((word name, p) ∷ (op o, q) ∷ (regex raw, x) ∷ ts)
        ≡ ok (
          cmp (resolve name) (regex_op o) (record { raw = raw; number = none; regex = some r }),
          ts,
        )
  unfolding primary parse_word parse_value
  regex_comparison_ok f n p q name o raw x ts r h =
      ap (λ y. y >>= (λ e. ok (e, ts))) (compare_regex_ok rt name o raw x r h)

  text_ok :
      (f n p : ℕ) (w : Text) (ts : Tokens)
      → primary rt n (parse_or rt f n) ((str w, p) ∷ ts) ≡ ok (free_text (rt.to_lowercase w), ts)
  unfolding primary
  text_ok f n p w ts = refl

  or_resumes :
      (g n : ℕ) (r : Parsed rt) (e : Expr rt) (us : Tokens)
      → 4 * length us + 1 ≤ g
      → r ≡ or_loop rt g n e us
      → (k : ℕ) × (4 * length us ≤ k) × (r ≡ or_loop rt (suc k) n e us)
  or_resumes zero n r e us h same = absurd (omega arith)
  or_resumes (suc k) n r e us h same = (k, omega arith, same)

  and_resumes :
      (g n : ℕ) (r : Parsed rt) (e : Expr rt) (us : Tokens)
      → 4 * length us + 3 ≤ g
      → r ≡ and_loop rt g n e us
      → (k : ℕ) × (4 * length us + 2 ≤ k) × (r ≡ and_loop rt (suc k) n e us)
  and_resumes zero n r e us h same = absurd (omega arith)
  and_resumes (suc k) n r e us h same = (k, omega arith, same)

  pub Derives-Runs :
      {symbol : Symbol} {ts us : Tokens} {e : Expr rt}
      → Derives rt symbol ts e us
      → (f n : ℕ) → Behind symbol us
      → need symbol ts ≤ f
      → Runs symbol f n ts e us
  Derives-Runs (one_and d) zero n b h = absurd (omega arith)
  Derives-Runs (one_and {ts} {us} {e} d) (suc f) n b h =
      let (g, enough, runs) = Derives-Runs d f n b.1 (omega arith) in
      or_resumes f n _ e us (omega (arith, Derives-length d))
        (parse_or_first f n e ts us (runs ∙ and_stops g n e us b.0))
  Derives-Runs (more_or {ts} {us} {vs} {l} {r} p d d') f n b h =
      let (g, enough, runs) = Derives-Runs d f n (refl, refl) h in
      let (k, enough', runs') = Derives-Runs d' g n b.1 (omega arith) in
      or_resumes g n _ (Expr.or l r) vs (omega (arith, Derives-length d'))
        (runs ∙ or_loop_or g n p l r us vs (runs' ∙ and_stops k n r vs b.0))
  Derives-Runs (one_unary d) zero n b h = absurd (omega arith)
  Derives-Runs (one_unary {ts} {us} {e} d) (suc f) n b h =
      and_resumes f n _ e us (omega (arith, Derives-length d))
        (parse_and_first f n e ts us (Derives-Runs d f n b (omega arith)))
  Derives-Runs (more_and {ts} {us} {vs} {l} {r} p d d') f n b h =
      let (g, enough, runs) = Derives-Runs d f n refl h in
      and_resumes g n _ (Expr.and l r) vs (omega (arith, Derives-length d')) (
        runs
        ∙ and_loop_next g n l r ((Tok.and, p) ∷ us) us vs refl
            (Derives-Runs d' g n b (omega arith)))
  Derives-Runs (juxtaposed {ts} {us} {vs} {l} {r} d d') f n b h =
      let starts = Derives-StartsTerm d' in
      let (g, enough, runs) = Derives-Runs d f n starts.1 h in
      and_resumes g n _ (Expr.and l r) vs (omega (arith, Derives-length d'))
        (runs ∙ and_loop_next g n l r us us vs starts.0 (Derives-Runs d' g n b (omega arith)))
  Derives-Runs (negated p d) zero n b h = absurd (omega arith)
  Derives-Runs (negated p d) (suc f) n b h =
      parse_unary_not f n p _ _ _ (Derives-Runs d f n b (omega arith))
  Derives-Runs (one_primary d) zero n b h = absurd (omega arith)
  Derives-Runs (one_primary d) (suc f) n b h =
      parse_unary-primary f n _ _ _ (primary-behind_not d) (Derives-Runs d f n b (omega arith))
  Derives-Runs (bracketed {ts} {us} {e} p q d) f n b h =
      let (g, enough, runs) = Derives-Runs d f n (refl, refl) (omega arith) in
      bracket_ok f n p q e ts us (runs ∙ or_stops g n e ((r_paren, q) ∷ us) refl)
  Derives-Runs (a_regex pattern p ts r k) f n b h = regex_ok f n p pattern r ts k
  Derives-Runs (a_text x p ts) f n b h = text_ok f n p x ts
  Derives-Runs (a_word w p ts) f n b h = word_ok f n p w ts b
  Derives-Runs (comparison name p o q v raw x ts c i k m) f n b h =
      comparison_ok f n p q name o v raw x ts c i k m
  Derives-Runs (regex_comparison name p o q raw x ts r k) f n b h =
      regex_comparison_ok f n p q name o raw x ts r k

  derived :
      (n : ℕ) (t : Tok × ℕ) (ts : Tokens) (e : Expr rt)
      → Derives rt or_query (t ∷ ts) e []
      → parse_tokens rt n (t ∷ ts) ≡ ok e
  unfolding parse_tokens
  derived n t ts e d =
      let (g, enough, runs) =
        Derives-Runs d (parse_fuel rt (t ∷ ts)) n (refl, refl) (omega arith) in
      ap (λ x. x >>= (λ y. ended rt n y.0 y.1)) (runs ∙ or_stops g n e [] refl)

  parse_tokens-Derives :
      (n : ℕ) (ts : Tokens) (e : Expr rt)
      → Derives rt or_query ts e []
      → parse_tokens rt n ts ≡ ok e
  parse_tokens-Derives n [] e d = absurd (omega (arith, Derives-length d))
  parse_tokens-Derives n (t ∷ ts) e d = derived n t ts e d

  -- If the tokens lie in the input, the parser returns an expression exactly if the grammar derives it
  -- from all of them.
  pub parse_tokens_iff :
      (n : ℕ) (ts : Tokens) (e : Expr rt)
      → Below n ts
      → (parse_tokens rt n ts ≡ ok e) ↔ Derives rt or_query ts e []
  parse_tokens_iff n ts e b =
      (λ h. subst (Answer rt n ts) h (parse_tokens-Answer rt n ts b), parse_tokens-Derives n ts e)
