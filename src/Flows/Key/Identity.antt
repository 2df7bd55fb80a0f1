-- ===== src/Flows/Key/Identity.antt =====
-- A flow key identifies its conversation (crates/pktflow-flows/src/key.rs, D3): packets share a key
-- only if they have the same shared values and the same two endpoints, up to the length that the
-- encoding keeps.
use pktflow.Prelude.{ℕ, ◌≡◌, refl, ap, sym, ◌∙◌, ◌⊎◌, List, [], ◌++◌, some, length, arith, inl, inr}
use mathlib.Core.List.{append_assoc}
use pktflow.Prelude.Result.{ok}
use pktflow.Core.Value.{Value, FieldMap}
use pktflow.Core.Stream.{FlowKey, PacketDirection, KeyField, endpoint_sort, StreamIdentity}
use pktflow.Flows.Key.{Sides, canonical, flow_key}
use pktflow.Flows.Key.Encoding.{
  Each64Bit, clip_all, encode_all-clip_all, clip_all-EachInRange, length-clip_all, EachInRange,
  encode_all, encode_all-injective,
}
use pktflow.Flows.Key.Ends.{
  Ends, no_ends, IsInRange, ends, encoded, collect-ends, unpaired, paired, HasLengths, ends-lengths,
}

abbrev pub SamePair : Ends → Ends → Type 0
SamePair e e' = ((e.a ≡ e'.a) × (e.b ≡ e'.b)) ⊎ ((e.a ≡ e'.b) × (e.b ≡ e'.a))

-- Shared values, smaller side and larger side, as the key holds them.
parts-injective :
    (s s' x x' y y' : List Value)
    → EachInRange s
    → EachInRange s'
    → EachInRange x
    → EachInRange x'
    → EachInRange y
    → EachInRange y'
    → length s ≡ length s'
    → length x ≡ length x'
    → length y ≡ length y'
    → encode_all s ++ encode_all x ++ encode_all y ≡ encode_all s' ++ encode_all x' ++ encode_all y'
    → (s ≡ s') × (x ≡ x') × (y ≡ y')
parts-injective s s' x x' y y' is is' ix ix' iy iy' ls lx ly e =
    let (ps, rest) =
      encode_all-injective s s' (encode_all x ++ encode_all y) (encode_all x' ++ encode_all y') is
        is' ls (simp append_assoc at e) in
    let (px, last) = encode_all-injective x x' (encode_all y) (encode_all y') ix ix' lx rest in
    let (py, _) = encode_all-injective y y' [] [] iy iy' ly (ap (λ t. t ++ []) last) in (ps, px, py)

key_cases :
    (s : Sides)
    → ((canonical s).0.bytes ≡ s.shared ++ s.side_a ++ s.side_b)
      ⊎ ((canonical s).0.bytes ≡ s.shared ++ s.side_b ++ s.side_a)
unfolding canonical
key_cases s = ground arith

module _ (e e' : Ends) (r : IsInRange e) (r' : IsInRange e') (s p : ℕ) (l : HasLengths s p e)
    (l' : HasLengths s p e') (h : (canonical (encoded e)).0 ≡ (canonical (encoded e')).0) where
  same_bytes : (canonical (encoded e)).0.bytes ≡ (canonical (encoded e')).0.bytes
  same_bytes = ap (λ (k : FlowKey). k.bytes) h

  canonical-injective : (e.shared ≡ e'.shared) × SamePair e e'
  canonical-injective = elim (key_cases (encoded e)) [
    | inl k ↦ elim (key_cases (encoded e')) [
      | inl k' ↦
          let (q, x, y) =
            parts-injective e.shared e'.shared e.a e'.a e.b e'.b r.shared r'.shared r.a r'.a r.b
              r'.b (omega arith) (omega arith) (omega arith) (sym k ∙ same_bytes ∙ k') in
          (q, inl (x, y))
      | inr k' ↦
          let (q, x, y) =
            parts-injective e.shared e'.shared e.a e'.b e.b e'.a r.shared r'.shared r.a r'.b r.b
              r'.a (omega arith) (omega arith) (omega arith) (sym k ∙ same_bytes ∙ k') in
          (q, inr (x, y))
    ]
    | inr k ↦ elim (key_cases (encoded e')) [
      | inl k' ↦
          let (q, x, y) =
            parts-injective e.shared e'.shared e.b e'.a e.a e'.b r.shared r'.shared r.b r'.a r.a
              r'.b (omega arith) (omega arith) (omega arith) (sym k ∙ same_bytes ∙ k') in
          (q, inr (y, x))
      | inr k' ↦
          let (q, x, y) =
            parts-injective e.shared e'.shared e.b e'.b e.a e'.a r.shared r'.shared r.b r'.b r.a
              r'.a (omega arith) (omega arith) (omega arith) (sym k ∙ same_bytes ∙ k') in
          (q, inl (y, x))
    ]
  ]

flow_key-ends :
    (identity : StreamIdentity) (f : FieldMap) (e : Ends)
    → identity.canonicalize ≡ endpoint_sort
    → ends f identity.key ≡ some e
    → flow_key identity f ≡ ok (canonical (encoded e))
unfolding flow_key ends
flow_key-ends identity f e sorts h =
    rw (sorts, flow_key) (rw (collect-ends f identity.key no_ends e h))

-- The ends as far as their encodings keep them.
abbrev pub clip_ends : Ends → Ends
clip_ends e = record { shared = clip_all e.shared; a = clip_all e.a; b = clip_all e.b }

pub record Have64Bit (e : Ends) : Type 0 where
  pub shared : Each64Bit e.shared
  pub a : Each64Bit e.a
  pub b : Each64Bit e.b

clip_ends-IsInRange : (e : Ends) → Have64Bit e → IsInRange (clip_ends e)
clip_ends-IsInRange e h = record {
  shared = clip_all-EachInRange e.shared h.shared;
  a = clip_all-EachInRange e.a h.a;
  b = clip_all-EachInRange e.b h.b;
}

encoded-clip_ends : (e : Ends) → encoded (clip_ends e) ≡ encoded e
encoded-clip_ends e =
    rw (encode_all-clip_all e.shared, encode_all-clip_all e.a, encode_all-clip_all e.b) refl

ends-HasLengths :
    (f : FieldMap) (kfs : List KeyField) (e : Ends)
    → ends f kfs ≡ some e
    → HasLengths (unpaired kfs) (paired kfs) (clip_ends e)
ends-HasLengths f kfs e h =
    let l =
      ends-lengths f kfs no_ends e 0 0 (record { shared = refl; a = refl; b = refl })
        (unfold ends in h) in
    record {
      shared = omega (arith, length-clip_all e.shared, l.shared);
      a = omega (arith, length-clip_all e.a, l.a);
      b = omega (arith, length-clip_all e.b, l.b);
    }

-- Take two packets under one endpoint-sorted declaration, with all fields of the key and with
-- integers within 64 bits. They have equal keys only if their shared values are equal and their
-- endpoints are, in the same order or exchanged, as far as the encoding keeps them: byte strings,
-- texts and lists up to their first 65535 bytes or items, also inside lists.
pub flow_key-injective :
    (identity : StreamIdentity) (f g : FieldMap) (e e' : Ends) (k : FlowKey)
    (d d' : PacketDirection)
    → identity.canonicalize ≡ endpoint_sort
    → ends f identity.key ≡ some e
    → ends g identity.key ≡ some e'
    → Have64Bit e
    → Have64Bit e'
    → flow_key identity f ≡ ok (k, d)
    → flow_key identity g ≡ ok (k, d')
    → ((clip_ends e).shared ≡ (clip_ends e').shared) × SamePair (clip_ends e) (clip_ends e')
flow_key-injective identity f g e e' k d d' sorts hf hg r r' kf kg =
    canonical-injective (clip_ends e) (clip_ends e') (clip_ends-IsInRange e r)
      (clip_ends-IsInRange e' r') (unpaired identity.key) (paired identity.key)
      (ends-HasLengths f identity.key e hf) (ends-HasLengths g identity.key e' hg)
      (rw (encoded-clip_ends e, encoded-clip_ends e')
        (cc (kf, kg, flow_key-ends identity f e sorts hf, flow_key-ends identity g e' sorts hg)))
