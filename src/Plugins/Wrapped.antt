-- ===== src/Plugins/Wrapped.antt =====
-- The header lengths of GRE, PPP, MPLS and ESP (crates/pktflow-plugins/src/gre.rs, ppp.rs, mpls.rs and
-- esp.rs).
use pktflow.Prelude.{
  ℕ, zero, suc, ◌+◌, ◌*◌, ◌%◌, ◌-◌, ◌^◌, ◌≤◌, ◌<◌, ◌≡◌, refl, subst, ap, Bool, true, false, not,
  ◌==◌, List, [], ◌∷◌, Option, none, length, arith,
}
use pktflow.Prelude.Result.{Result, ok, ◌>>=◌, >>=-eq-ok}
use pktflow.Core.Bytes
use pktflow.Core.Bytes.{ByteReader, u8, u16_be, u32_be}
use pktflow.Core.Error.{ParseError}
use pktflow.Core.Plugin.{ParseCtx, ParsedLayer}
use pktflow.Plugins.Tcp.{bit}
use pktflow.Plugins.Encapsulation.{
  gre_checksum, gre_word, optional_len, gre_parse, ppp_protocol, ppp_parse, label_stack, max_labels,
  mpls_parse, esp_parse,
}
use pktflow.Plugins.Headers.{At, new-At, behind_u16, behind_u32, guard_passed, guarded_ok}
use pktflow.Plugins.Extensions.{behind_u8, header_inside, one_branch}

moved_to :
    {A : Type 0} (input : List ℕ) (n m : ℕ) (p q : A × ByteReader)
    → At input n p.1
    → n ≡ m
    → Path (Result ParseError (A × ByteReader)) (ok p) (ok q)
    → At input m q.1
moved_to input n m p q a same h =
    subst (λ x. At input m x.1) (guarded_ok true p q (ParseError.malformed "") h)
      (subst (λ k. At input k p.1) same a)

gre_checksum-At :
    (input : List ℕ) (n : ℕ) (b : Bool) (r : ByteReader) (p : Option ℕ × ByteReader)
    → At input n r
    → gre_checksum b r ≡ ok p
    → At input (n + optional_len b) p.1
unfolding gre_checksum
gre_checksum-At input n false r p a h = moved_to input n (n + 0) (none, r) p a (omega arith) h
gre_checksum-At input n true r p a h = behind_u16 input n r _ p a h (λ checksum r a h.
    behind_u16 input (n + 2) r _ p a h
      (λ reserved r a h. moved_to input (n + 2 + 2) (n + 4) _ p a (omega arith) h))

gre_word-At :
    (input : List ℕ) (n : ℕ) (b : Bool) (r : ByteReader) (p : Option ℕ × ByteReader)
    → At input n r
    → gre_word b r ≡ ok p
    → At input (n + optional_len b) p.1
unfolding gre_word
gre_word-At input n false r p a h = moved_to input n (n + 0) (none, r) p a (omega arith) h
gre_word-At input n true r p a h =
    behind_u32 input n r _ p a h (λ k r a h. moved_to input (n + 4) (n + 4) _ p a refl h)

-- A parser goes on behind what another has read.
behind_part :
    {G L A : Type 0} (m : Result ParseError (A × ByteReader))
    (later : (A × ByteReader) → Result ParseError L) (layer : L)
    → (m >>= later) ≡ ok layer
    → ((p : A × ByteReader) → m ≡ ok p → later p ≡ ok layer → G)
    → G
behind_part m later layer h go = let (p, part, rest) = >>=-eq-ok m later h in go p part rest

ppp_protocol-At :
    (input : List ℕ) (first : ℕ) (r : ByteReader) (p : ℕ × ByteReader)
    → At input 1 r
    → ppp_protocol first r ≡ ok p
    → (n : ℕ) × At input n p.1
unfolding ppp_protocol
ppp_protocol-At input first r p a h =
    one_branch (first % 2 == 1) (ok (first, r)) _ p
      (λ h. (1, moved_to input 1 1 (first, r) p a refl h))
      (λ h. behind_u8 input 1 r _ p a h (λ second r a h. (2, moved_to input 2 2 _ p a refl h))) h

-- A reader behind the entries of a label stack.
stacked :
    (input : List ℕ) (n : ℕ) (q p : List ℕ × ByteReader) (m : ℕ)
    → At input m q.1
    → m ≡ n + 4 * length q.0
    → Path (Result ParseError (List ℕ × ByteReader)) (ok q) (ok p)
    → At input (n + 4 * length p.0) p.1
stacked input n q p m a same h =
    subst (λ x. At input (n + 4 * length x.0) x.1) (guarded_ok true q p (ParseError.malformed "") h)
      (subst (λ k. At input k q.1) same a)

-- The reader stands behind four bytes for each entry.
label_stack-At :
    (left : ℕ) (input : List ℕ) (n : ℕ) (r : ByteReader) (p : List ℕ × ByteReader)
    → At input n r
    → label_stack left r ≡ ok p
    → At input (n + 4 * length p.0) p.1
unfolding label_stack
label_stack-At zero input n r p a h = absurd (cc)
label_stack-At (suc left) input n r p a h = behind_u32 input n r _ p a h (λ entry r a h.
    one_branch (bit entry 8) (ok (entry ∷ [], r)) _ p
      (λ h. stacked input n (entry ∷ [], r) p (n + 4) a (omega arith) h)
      (λ h. behind_part (label_stack left r) _ p h (λ q part rest.
        stacked input n (entry ∷ q.0, q.1) p (n + 4 + 4 * length q.0)
          (label_stack-At left input (n + 4) r q a part) (omega arith) rest))
      h)

remaining_inside :
    (input : List ℕ) (n : ℕ) (r : ByteReader) (x layer : ParsedLayer)
    → At input n r
    → x.header_len ≡ length input - Bytes.remaining r
    → Path (Result ParseError ParsedLayer) (ok x) (ok layer)
    → layer.header_len ≤ length input
remaining_inside input n r x layer a len h =
    omega
      (arith, len, ap ParsedLayer.header_len (guarded_ok true x layer (ParseError.malformed "") h))

module _ (input : List ℕ) (ctx : ParseCtx) (layer : ParsedLayer)
    (sized : length input < 2 ^ 64) where
  pub esp_parse-le : esp_parse input ctx ≡ ok layer → layer.header_len ≤ length input
  unfolding esp_parse
  esp_parse-le h = behind_u32 input 0 (Bytes.new input) _ layer (new-At input sized) h (λ spi r a h.
      behind_u32 input 4 r _ layer a h (λ sequence r a h. header_inside input 8 r _ layer a refl h))

  pub mpls_parse-le : mpls_parse input ctx ≡ ok layer → layer.header_len ≤ length input
  unfolding mpls_parse
  mpls_parse-le h = behind_part (label_stack max_labels (Bytes.new input)) _ layer h (λ p part h.
      header_inside input (0 + 4 * length p.0) p.1 _ layer
        (label_stack-At max_labels input 0 (Bytes.new input) p (new-At input sized) part)
        (omega arith) h)

  pub ppp_parse-le : ppp_parse input ctx ≡ ok layer → layer.header_len ≤ length input
  unfolding ppp_parse
  ppp_parse-le h =
      behind_u8 input 0 (Bytes.new input) _ layer (new-At input sized) h (λ first r a h.
        behind_part (ppp_protocol first r) _ layer h (λ p part h.
          let (n, b) = ppp_protocol-At input first r p a part in
          remaining_inside input n p.1 _ layer b refl h))

  pub gre_parse-le : gre_parse input ctx ≡ ok layer → layer.header_len ≤ length input
  unfolding gre_parse
  gre_parse-le h =
      behind_u16 input 0 (Bytes.new input) _ layer (new-At input sized) h (λ flags r a h.
        guard_passed (not (flags % 8 == 0)) (ParseError.malformed "GRE version is not 0") _ layer h
          (λ known h. behind_u16 input 2 r _ layer a h (λ protocol r a h.
            behind_part (gre_checksum (bit flags 15) r) _ layer h (λ c part h.
              let a = gre_checksum-At input 4 (bit flags 15) r c a part in
              behind_part (gre_word (bit flags 13) c.1) _ layer h (λ k part h.
                let a = gre_word-At input _ (bit flags 13) c.1 k a part in
                behind_part (gre_word (bit flags 12) k.1) _ layer h (λ s part h.
                  header_inside input _ s.1 _ layer
                    (gre_word-At input _ (bit flags 12) k.1 s a part) refl h))))))
