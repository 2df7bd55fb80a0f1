-- ===== src/View/Query/Lex/Outcome.antt =====
-- The outcome of the lexer (lex of crates/pktflow-view/src/query.rs).
use pktflow.Prelude.{
  ℕ, zero, suc, ◌+◌, ◌-◌, ◌≤◌, ◌<◌, ◌≡◌, refl, subst, if_cases, [], ◌∷◌, ◌++◌, true, false, ◌&&◌,
  ◌||◌, Option, none, some, length, ◌==◌, Bool-cases, Option-cases, inl, inr, arith,
}
use pktflow.Prelude.Text.{Text, is_char_boundary, is_whitespace}
use pktflow.Prelude.Result.{Result, ok, err, ◌>>=◌}
use pktflow.View.Query.{
  Failure, query_error, panic, out_of_fuel, Tok, Tokens, str, regex, l_paren, r_paren,
}
use pktflow.View.Query.Lex.{
  Round, best_split, scan_quoted, scan_regex, scan_word, slice, lex_quoted, lex_regex, lex_word,
  lex_round, lex_from, lex, push_scanned, prepended, ends_word, word_ops,
}
use pktflow.View.Query.Lex.Positions.{
  IsAscii, Ascending, Ascending-le, Ascending-append, best_split-Inside, word_tokens-Ascending,
}

is_char_boundary-IsAscii : (t : Text) → IsAscii t → is_char_boundary t ≡ true
is_char_boundary-IsAscii [] h = refl
is_char_boundary-IsAscii (c ∷ cs) h = ground (arith, h.0)

-- What is left behind a scan.
abbrev Left : ℕ → Option (Text × Text) → Type 0
Left n none = Unit
Left n (some (s, rest)) = (length rest ≤ n) × IsAscii rest

Left-push_scanned :
    (c n m : ℕ) (o : Option (Text × Text)) → n ≤ m → Left n o → Left m (push_scanned c o)
Left-push_scanned c n m none h l = tt
Left-push_scanned c n m (some (s, rest)) h l = (omega arith, l.1)

Left-prepended : (c n m : ℕ) (o : Option (Text × Text)) → n ≤ m → Left n o → Left m (prepended c o)
Left-prepended c n m none h l = tt
Left-prepended c n m (some (s, rest)) h l = (omega arith, l.1)

scan_quoted-Left : (quote : ℕ) (cs : Text) → IsAscii cs → Left (length cs) (scan_quoted quote cs)
unfolding scan_quoted
scan_quoted-Left quote [] h = tt
scan_quoted-Left quote (c ∷ cs) h = elim (Bool-cases (c == quote)) [
  | inl e ↦ rw e (omega arith, h.1)
  | inr e ↦ rw e (
      Left-prepended c (length cs) (suc (length cs)) (scan_quoted quote cs) (omega arith)
        (scan_quoted-Left quote cs h.1))
]

scan_regex-Left : (cs : Text) → IsAscii cs → Left (length cs) (scan_regex cs)
unfolding scan_regex
scan_regex-Left [] h = tt
scan_regex-Left (c ∷ []) h = elim (Bool-cases (c == b'/')) [
  | inl e ↦ rw e (omega arith, tt)
  | inr e ↦ rw e tt
]
scan_regex-Left (c ∷ d ∷ cs) h =
    let escaped =
      Left-push_scanned b'/' (length cs) (length (c ∷ d ∷ cs)) (scan_regex cs) (omega arith)
        (scan_regex-Left cs h.1.1) in
    let plain =
      Left-push_scanned c (length (d ∷ cs)) (length (c ∷ d ∷ cs)) (scan_regex (d ∷ cs))
        (omega arith) (scan_regex-Left (d ∷ cs) h.1) in
    elim (Bool-cases ((c == b'\\') && (d == b'/'))) [
      | inl e ↦ rw e escaped
      | inr e ↦ elim (Bool-cases (c == b'/')) [
        | inl f ↦ rw (e, f) (omega arith, h.1)
        | inr f ↦ rw (e, f) plain
      ]
    ]

scan_word-Left :
    (cs : Text)
    → IsAscii cs
    → (length (scan_word cs).0 + length (scan_word cs).1 ≡ length cs) × IsAscii (scan_word cs).1
unfolding scan_word
scan_word-Left [] h = (omega arith, tt)
scan_word-Left (c ∷ cs) h = elim (Bool-cases (ends_word c)) [
  | inl e ↦ rw e (omega arith, h)
  | inr e ↦ let ih = scan_word-Left cs h.1 in rw e (omega (arith, ih.0), ih.1)
]

-- A round that starts at index `i` and leaves less than `n` bytes of `len`.
abbrev RoundOutcome : ℕ → ℕ → ℕ → Round → Type 0
RoundOutcome len i n (ok (ts, rest)) =
    (length rest < n) × IsAscii rest × Ascending i (len - length rest) ts
RoundOutcome len i n (err (query_error e)) = e.position ≡ i
RoundOutcome len i n (err panic) = ⊥
RoundOutcome len i n (err out_of_fuel) = ⊥

one_token :
    (len i n : ℕ) (t : Tok) (rest : Text)
    → length rest < n
    → n ≤ len
    → i ≡ len - n
    → IsAscii rest
    → RoundOutcome len i n (ok ((t, i) ∷ [], rest))
one_token len i n t rest l m e a = (l, a, (omega arith, omega arith))

sliced-RoundOutcome :
    (len i n : ℕ) (from s rest end : Text) (k : Text → Result Failure (Tokens × Text))
    → IsAscii from
    → IsAscii end
    → RoundOutcome len i n (k s)
    → RoundOutcome len i n (slice from s end >>= k)
sliced-RoundOutcome len i n from s rest end k a b h =
    rw (is_char_boundary-IsAscii from a, is_char_boundary-IsAscii end b) h

lex_quoted-RoundOutcome :
    (len quote : ℕ) (cs : Text)
    → quote < 128
    → suc (length cs) ≤ len
    → IsAscii cs
    → RoundOutcome len
        (len - suc (length cs))
        (suc (length cs))
        (lex_quoted quote cs (len - suc (length cs)))
unfolding lex_quoted
lex_quoted-RoundOutcome len quote cs q l a = elim (Option-cases (scan_quoted quote cs)) [
  | inl e ↦ rw (e, lex_quoted, RoundOutcome) refl
  | inr ((s, rest), e) ↦
      let left : Left (length cs) (some (s, rest)) =
        subst (Left (length cs)) e (scan_quoted-Left quote cs a) in
      rw (e, lex_quoted, RoundOutcome)
        (sliced-RoundOutcome len _ _ cs s rest (quote ∷ rest) _ a (q, left.1)
          (one_token len _ (suc (length cs)) (str s) rest (omega arith) l refl left.1))
]

lex_regex-RoundOutcome :
    (len : ℕ) (cs : Text)
    → suc (length cs) ≤ len
    → IsAscii cs
    → RoundOutcome len
        (len - suc (length cs))
        (suc (length cs))
        (lex_regex cs (len - suc (length cs)))
unfolding lex_regex
lex_regex-RoundOutcome len cs l a = elim (Option-cases (scan_regex cs)) [
  | inl e ↦ rw (e, lex_regex, RoundOutcome) refl
  | inr ((s, rest), e) ↦
      let left : Left (length cs) (some (s, rest)) =
        subst (Left (length cs)) e (scan_regex-Left cs a) in
      rw (e, lex_regex, RoundOutcome)
        (one_token len _ (suc (length cs)) (regex s) rest (omega arith) l refl left.1)
]

length-scan_word : (c : ℕ) (cs : Text) → ends_word c ≡ false → 0 < length (scan_word (c ∷ cs)).0
unfolding scan_word
length-scan_word c cs h = rw h (omega arith)

lex_word-RoundOutcome :
    (len c : ℕ) (cs : Text)
    → suc (length cs) ≤ len
    → IsAscii (c ∷ cs)
    → ends_word c ≡ false
    → RoundOutcome len
        (len - suc (length cs))
        (suc (length cs))
        (lex_word (c ∷ cs) (len - suc (length cs)))
unfolding lex_word
lex_word-RoundOutcome len c cs l a inside =
    let w = (scan_word (c ∷ cs)).0 in
    let rest = (scan_word (c ∷ cs)).1 in
    let left = scan_word-Left (c ∷ cs) a in
    let ne = length-scan_word c cs inside in
    let start = len - suc (length cs) in
    let end : start + length w ≡ len - length rest = omega (arith, left.0) in
    let split = best_split-Inside w word_ops none (omega arith) tt in
    sliced-RoundOutcome len start (suc (length cs)) (c ∷ cs) w rest rest _ a left.1 (
      omega (arith, left.0),
      left.1,
      rw (← end) (word_tokens-Ascending w start (best_split w word_ops none) ne split),
    )

lex_round-RoundOutcome :
    (len c : ℕ) (cs : Text)
    → suc (length cs) ≤ len
    → IsAscii (c ∷ cs)
    → RoundOutcome len
        (len - suc (length cs))
        (suc (length cs))
        (lex_round c cs (len - suc (length cs)))
unfolding lex_round
lex_round-RoundOutcome len c cs l a =
    let start = len - suc (length cs) in
    let token = λ (t : Tok). one_token len start (suc (length cs)) t cs (omega arith) l refl a.1 in
    if_cases (RoundOutcome len start (suc (length cs))) (is_whitespace c) _ _
      (λ e. (omega arith, a.1, omega arith))
      (λ no_space.
        if_cases (RoundOutcome len start (suc (length cs))) (c == b'(') _ _ (λ e. token l_paren)
          (λ no_open.
            if_cases (RoundOutcome len start (suc (length cs))) (c == b')') _ _ (λ e. token r_paren)
              (λ no_close.
                if_cases (RoundOutcome len start (suc (length cs))) ((c == b'"') || (c == b'\'')) _
                  _ (λ e. lex_quoted-RoundOutcome len c cs a.0 l a.1)
                  (λ no_quote.
                    if_cases (RoundOutcome len start (suc (length cs))) (c == b'/') _ _
                      (λ e. lex_regex-RoundOutcome len cs l a.1)
                      (λ no_slash. lex_word-RoundOutcome len c cs l a (ground arith))))))

-- What the lexer returns: tokens at rising positions in the input, or an error at one.
abbrev pub LexOutcome : ℕ → ℕ → Result Failure Tokens → Type 0
LexOutcome lo len (ok ts) = Ascending lo len ts
LexOutcome lo len (err (query_error e)) = (lo ≤ e.position) × (e.position < len)
LexOutcome lo len (err panic) = ⊥
LexOutcome lo len (err out_of_fuel) = ⊥

LexOutcome-behind :
    (lo mid len : ℕ) (ts : Tokens) (r : Result Failure Tokens)
    → Ascending lo mid ts
    → LexOutcome mid len r
    → LexOutcome lo len (r >>= (λ later. ok (ts ++ later)))
LexOutcome-behind lo mid len ts (ok later) a b = Ascending-append lo mid len ts later a b
LexOutcome-behind lo mid len ts (err (query_error e)) a b =
    (omega (arith, Ascending-le lo mid ts a), b.1)
LexOutcome-behind lo mid len ts (err panic) a b = b
LexOutcome-behind lo mid len ts (err out_of_fuel) a b = b

lex_step :
    (len n : ℕ) (r : Round) (later : Text → Result Failure Tokens)
    → n ≤ len
    → 0 < n
    → RoundOutcome len (len - n) n r
    → ((rest : Text)
        → length rest < n
        → IsAscii rest
        → LexOutcome (len - length rest) len (later rest))
    → LexOutcome (len - n) len (r >>= (λ x. later x.1 >>= (λ ts. ok (x.0 ++ ts))))
lex_step len n (ok (ts, rest)) later l z (short, a, asc) ih =
    LexOutcome-behind (len - n) (len - length rest) len ts (later rest) asc (ih rest short a)
lex_step len n (err (query_error e)) later l z h ih = (omega arith, omega arith)
lex_step len n (err panic) later l z h ih = h
lex_step len n (err out_of_fuel) later l z h ih = h

lex_from-LexOutcome :
    (fuel len : ℕ) (rest : Text)
    → length rest ≤ fuel
    → length rest ≤ len
    → IsAscii rest
    → LexOutcome (len - length rest) len (lex_from fuel len rest)
unfolding lex_from
lex_from-LexOutcome fuel len [] f l a = omega arith
lex_from-LexOutcome zero len (c ∷ cs) f l a = absurd (omega arith)
lex_from-LexOutcome (suc fuel) len (c ∷ cs) f l a =
    lex_step len (suc (length cs)) (lex_round c cs (len - suc (length cs))) (lex_from fuel len) l
      (omega arith) (lex_round-RoundOutcome len c cs l a)
      (λ rest short ascii. lex_from-LexOutcome fuel len rest (omega arith) (omega arith) ascii)

-- On an ASCII input the lexer always returns. It does not panic, and its rounds are enough. Either it
-- returns tokens whose positions rise strictly and lie within the input, or an error whose position
-- lies within the input.
pub lex-LexOutcome : (input : Text) → IsAscii input → LexOutcome 0 (length input) (lex input)
unfolding lex
lex-LexOutcome input a =
    let h = lex_from-LexOutcome (length input) (length input) input (omega arith) (omega arith) a in
    let z : length input - length input ≡ 0 = omega arith in rw (← z) h
