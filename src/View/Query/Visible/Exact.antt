-- ===== src/View/Query/Visible/Exact.antt =====
-- The visible set is exact (matching_with_ancestors of crates/pktflow-view/src/query.rs).
use pktflow.Prelude.{
  ℕ, ◌≡◌, ◌↔◌, ◌⊎◌, inl, inr, refl, List, [], ◌∷◌, Bool, true, false, Option, length, contains,
  nat_eq, if◌then◌else◌,
}
use pktflow.Prelude.Map.{Map}
use pktflow.Flows.Store.{StreamId, stream_id_eq, Stream}
use pktflow.View.Query.{Runtime, Expr}
use pktflow.View.Query.Eval.{eval}
use pktflow.View.Query.Visible.{keep_ancestors, keep_matches, matching_with_ancestors}
use pktflow.View.Query.Visible.Closure.{
  Above, here, higher, Shown, SameParent, AllSameParent, UniqueSeqs, contains-cons,
  contains-cons_self, contains-cons_later, fresh_le, Stopped, walk-Sound, Closed, AllClosed,
  walk-Closes,
}

module _ (ids : Map StreamId Stream) where
  -- Above a handle all is kept, if the stream there is, and the set is closed.
  Above-kept :
      {cursor : Option StreamId} {n : ℕ} (keep : List ℕ)
      → AllClosed ids keep
      → Stopped ids cursor keep
      → Above ids cursor n
      → contains keep n ≡ true
  Above-kept keep closed stopped (here p s e) = stopped p s refl e
  Above-kept keep closed stopped (higher p s n e above) =
      Above-kept keep closed (closed p s e (stopped p s refl e)) above

  start-Closed :
      (s : Stream) (keep : List ℕ)
      → SameParent ids s
      → AllClosed ids keep
      → Closed ids s.parent (s.created_seq ∷ keep)
  start-Closed s keep same closed id t e k =
      elim (contains-cons s.created_seq t.created_seq keep k) [
        | inl eq ↦ inr (same id t e eq)
        | inr old ↦ inl (λ p q c f.
            contains-cons_later s.created_seq q.created_seq keep (closed id t e old p q c f))
      ]

  -- `n` is the number of `s` or stands above it.
  abbrev At : Stream → ℕ → Type 0
  At s n = (n ≡ s.created_seq) ⊎ Above ids s.parent n

  -- A round of the loop over the streams, at a stream that the query matches if `b` says so.
  abbrev Kept : Bool → Stream → List ℕ → List ℕ → Type 0
  Kept b s keep out =
      ((n : ℕ) → contains out n ≡ true → (contains keep n ≡ true) ⊎ ((b ≡ true) × At s n))
      × ((n : ℕ) → contains keep n ≡ true → contains out n ≡ true)
      × (AllClosed ids keep → AllClosed ids out)
      × (b ≡ true → AllClosed ids keep → (n : ℕ) → At s n → contains out n ≡ true)

  -- A match, behind which the walk keeps the ancestors.
  Kept-match :
      UniqueSeqs ids
      → (s : Stream) (keep : List ℕ) → SameParent ids s
      → Kept true s keep (keep_ancestors (length ids) ids s.parent (s.created_seq ∷ keep))
  Kept-match unique s keep same =
      let enough = fresh_le (s.created_seq ∷ keep) ids in
      let (keeps, closes) =
        walk-Closes ids unique (length ids) s.parent (s.created_seq ∷ keep) enough in
      let start = λ (closed : AllClosed ids keep). start-Closed s keep same closed in
      (
        λ n h. elim (walk-Sound ids (length ids) s.parent (s.created_seq ∷ keep) enough n h) [
          | inr above ↦ inr (refl, inr above)
          | inl c ↦ elim (contains-cons s.created_seq n keep c) [
            | inl e ↦ inr (refl, inl e)
            | inr old ↦ inl old
          ]
        ],
        λ n h. keeps n (contains-cons_later s.created_seq n keep h),
        λ closed. (closes (start closed)).0,
        λ b closed n at. elim at [
          | inl e ↦ rw e (keeps s.created_seq (contains-cons_self s.created_seq keep))
          | inr above ↦ Above-kept _ (closes (start closed)).0 (closes (start closed)).1 above
        ],
      )

  Kept-if :
      UniqueSeqs ids
      → (b : Bool) (s : Stream) (keep : List ℕ) → SameParent ids s
      → Kept b s keep
          (if b then keep_ancestors (length ids) ids s.parent (s.created_seq ∷ keep) else keep)
  Kept-if unique true s keep same = Kept-match unique s keep same
  Kept-if unique false s keep same = (λ n h. inl h, λ n h. h, λ closed. closed, λ b. absurd (cc))

  keep_matches_iff :
      UniqueSeqs ids
      → (matches : Stream → Bool) (ss : List Stream) (keep : List ℕ) → AllSameParent ids ss
      → AllClosed ids keep
      → (n : ℕ)
      → (contains (keep_matches matches ss ids keep) n ≡ true)
        ↔ ((contains keep n ≡ true) ⊎ Shown matches ids ss n)
  unfolding keep_matches
  keep_matches_iff unique matches [] keep same closed n =
      (λ h. inl h, λ h. elim h [ inl k ↦ k | inr no_match ↦ absurd no_match ])
  keep_matches_iff unique matches (s ∷ ss) keep same closed n =
      let out =
        (if matches s
          then keep_ancestors (length ids) ids s.parent (s.created_seq ∷ keep)
          else keep) in
      let (sound, keeps, closes, complete) = Kept-if unique (matches s) s keep same.0 in
      let later = keep_matches_iff unique matches ss out same.1 (closes closed) n in
      (
        λ h. elim (later.0 h) [
          | inr shown ↦ inr (inr shown)
          | inl k ↦ elim (sound n k) [ inl old ↦ inl old | inr new ↦ inr (inl new) ]
        ],
        λ h. elim h [
          | inl k ↦ later.1 (inl (keeps n k))
          | inr (inl (m, at)) ↦ later.1 (inl (complete m closed n at))
          | inr (inr shown) ↦ later.1 (inr shown)
        ],
      )

-- If a sequence number belongs to one stream, the visible set of a query holds exactly the sequence
-- numbers of the matching streams and of their ancestors.
pub matching_with_ancestors_iff :
    (rt : Runtime) (streams : List Stream) (ids : Map StreamId Stream) (query : Expr rt)
    → UniqueSeqs ids
    → AllSameParent ids streams
    → (n : ℕ)
    → (contains (matching_with_ancestors rt streams ids query) n ≡ true)
      ↔ Shown (λ s. eval rt query s ids) ids streams n
unfolding matching_with_ancestors
matching_with_ancestors_iff rt streams ids query unique same n =
    let iff =
      keep_matches_iff ids unique (λ s. eval rt query s ids) streams [] same
        (λ id t e k. absurd (cc)) n in
    (λ h. elim (iff.0 h) [ inl k ↦ absurd (cc) | inr shown ↦ shown ], λ shown. iff.1 (inr shown))
