-- ===== src/View/Query/Parse/Comparisons.antt =====
-- What a word and a comparison of the grammar make the parser do (parse_primary and parse_comparison
-- of crates/pktflow-view/src/query.rs).
use pktflow.Prelude.{ℕ, ◌≡◌, ◌≢◌, refl, ap, subst, [], ◌∷◌, Bool, true, false, Option, none, some}
use pktflow.Prelude.Text.{Text}
use pktflow.Prelude.Result.{ok, ◌>>=◌}
use pktflow.View.Query.{CmpOp, Tok, l_paren, r_paren, op, word, str, regex, Tokens, Runtime, cmp}
use pktflow.View.Query.Parse.{
  resolve, parse_number, bare_word, compile, compile_for, compare_value, compare_regex, parse_value,
  parse_word, need_number, is_ordering, regex_op,
}
use pktflow.View.Query.Parse.Grammar.{Compiled, Ordered, value_text}

-- No operator stands next, which would make a field of the word before it.
abbrev pub no_op : Tokens → Bool
no_op ((op o, p) ∷ ts) = false
no_op ts = true

module _ (rt : Runtime) where
  pub compile_ok :
      (pattern : Text) (at : ℕ) (r : rt.Regex)
      → rt.build_regex pattern ≡ ok r
      → compile rt pattern at ≡ ok r
  unfolding compile
  compile_ok pattern at r h = rw (h, compile) refl

  pub compile_for_ok :
      (o : CmpOp) (raw : Text) (at : ℕ) (c : Option rt.Regex)
      → Compiled rt o raw c
      → compile_for rt o raw at ≡ ok c
  unfolding compile_for
  compile_for_ok o raw at none h = rw h
  compile_for_ok o raw at (some r) (m, b) = rw (m, compile_ok raw at r b)

  pub need_number_ok :
      (b : Bool) (m : Option (rt.F64 × Text)) (raw : Text) (at : ℕ)
      → (b ≡ true → m ≢ none)
      → need_number rt b m raw at ≡ ok m
  need_number_ok true none raw at h = absurd (h refl refl)
  need_number_ok true (some x) raw at h = refl
  need_number_ok false m raw at h = refl

  pub compare_value_ok :
      (name : Text) (o : CmpOp) (raw : Text) (at : ℕ) (c : Option rt.Regex)
      → Ordered rt o raw
      → Compiled rt o raw c
      → compare_value rt name o raw at
        ≡ ok (cmp (resolve name) o (record { raw = raw; number = parse_number rt raw; regex = c }))
  unfolding compare_value
  compare_value_ok name o raw at c h k =
      rw
        (need_number_ok (is_ordering o) (parse_number rt raw) raw at h, compile_for_ok o raw at c k)

  pub compare_regex_ok :
      (name : Text) (o : CmpOp) (raw : Text) (at : ℕ) (r : rt.Regex)
      → rt.build_regex raw ≡ ok r
      → compare_regex rt name o raw at
        ≡ ok (cmp (resolve name) (regex_op o) (record { raw = raw; number = none; regex = some r }))
  unfolding compare_regex
  compare_regex_ok name o raw at r h = rw (compile_ok raw at r h)

  pub parse_value_ok :
      (n : ℕ) (name : Text) (o : CmpOp) (v : Tok) (raw : Text) (s : ℕ) (ts : Tokens)
      (c : Option rt.Regex)
      → value_text v ≡ some raw
      → Ordered rt o raw
      → Compiled rt o raw c
      → parse_value rt n name o ((v, s) ∷ ts)
        ≡ ok (
          cmp (resolve name) o (record { raw = raw; number = parse_number rt raw; regex = c }),
          ts,
        )
  unfolding parse_value
  parse_value_ok n name o (word w) raw s ts c h k m =
      let same : w ≡ raw = cc in
      subst
        (λ x.
          Ordered rt o x
          → Compiled rt o x c
          → parse_value rt n name o ((word w, s) ∷ ts)
            ≡ ok (
              cmp (resolve name) o (record { raw = x; number = parse_number rt x; regex = c }),
              ts,
            ))
        same (λ k' m'. ap (λ r. r >>= (λ e. ok (e, ts))) (compare_value_ok name o w s c k' m')) k m
  parse_value_ok n name o (str w) raw s ts c h k m =
      let same : w ≡ raw = cc in
      subst
        (λ x.
          Ordered rt o x
          → Compiled rt o x c
          → parse_value rt n name o ((str w, s) ∷ ts)
            ≡ ok (
              cmp (resolve name) o (record { raw = x; number = parse_number rt x; regex = c }),
              ts,
            ))
        same (λ k' m'. ap (λ r. r >>= (λ e. ok (e, ts))) (compare_value_ok name o w s c k' m')) k m
  parse_value_ok n name o l_paren raw s ts c h k m = cc
  parse_value_ok n name o r_paren raw s ts c h k m = cc
  parse_value_ok n name o Tok.and raw s ts c h k m = cc
  parse_value_ok n name o Tok.or raw s ts c h k m = cc
  parse_value_ok n name o Tok.not raw s ts c h k m = cc
  parse_value_ok n name o (op x) raw s ts c h k m = cc
  parse_value_ok n name o (regex x) raw s ts c h k m = cc

  pub parse_word_ok :
      (n : ℕ) (w : Text) (ts : Tokens)
      → no_op ts ≡ true
      → parse_word rt n w ts ≡ ok (bare_word rt w, ts)
  unfolding parse_word
  parse_word_ok n w [] h = refl
  parse_word_ok n w ((op o, p) ∷ ts) h = cc
  parse_word_ok n w ((word x, p) ∷ ts) h = refl
  parse_word_ok n w ((str x, p) ∷ ts) h = refl
  parse_word_ok n w ((regex x, p) ∷ ts) h = refl
  parse_word_ok n w ((l_paren, p) ∷ ts) h = refl
  parse_word_ok n w ((r_paren, p) ∷ ts) h = refl
  parse_word_ok n w ((Tok.and, p) ∷ ts) h = refl
  parse_word_ok n w ((Tok.or, p) ∷ ts) h = refl
  parse_word_ok n w ((Tok.not, p) ∷ ts) h = refl
