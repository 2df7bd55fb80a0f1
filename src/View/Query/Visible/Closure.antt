-- ===== src/View/Query/Visible/Closure.antt =====
-- One walk of the visible set (matching_with_ancestors of crates/pktflow-view/src/query.rs): what it
-- keeps, and that its rounds are enough.
use pktflow.Prelude.{
  ℕ, zero, suc, ◌≤◌, ◌<◌, ◌≡◌, ◌⊎◌, inl, inr, refl, sym, ap, subst, List, [], ◌∷◌, Bool, true,
  false, Option, none, some, length, contains, nat_eq, ◌≟◌, ≟_eq, ≟_refl, if◌then◌else◌, Bool-cases,
  Option-cases, arith,
}
use pktflow.Prelude.Map
use pktflow.Prelude.Map.{Map}
use pktflow.Flows.Store.{StreamId, stream_id_eq, Stream}
use pktflow.View.Query.Visible.{keep_ancestors}

-- The sequence number `n` stands at the handle, or at an ancestor of the stream there.
pub data Above (ids : Map StreamId Stream) : Option StreamId → ℕ → Type 0 where
  here : (p : StreamId) (s : Stream) → Map.get p ids ≡ some s → Above ids (some p) s.created_seq
  higher :
      (p : StreamId) (s : Stream) (n : ℕ)
      → Map.get p ids ≡ some s
      → Above ids s.parent n
      → Above ids (some p) n

-- `n` is a match or an ancestor of one.
abbrev pub Shown : (Stream → Bool) → Map StreamId Stream → List Stream → ℕ → Type 0
Shown matches ids [] n = ⊥
Shown matches ids (s ∷ ss) n =
    ((matches s ≡ true) × ((n ≡ s.created_seq) ⊎ Above ids s.parent n)) ⊎ Shown matches ids ss n

-- A sequence number belongs to one stream, so it tells the parent.
abbrev pub SameParent : Map StreamId Stream → Stream → Type 0
SameParent ids s =
    (p : StreamId) (t : Stream)
    → Map.get p ids ≡ some t
    → t.created_seq ≡ s.created_seq
    → t.parent ≡ s.parent

abbrev pub AllSameParent : Map StreamId Stream → List Stream → Type 0
AllSameParent ids [] = Unit
AllSameParent ids (s ∷ ss) = SameParent ids s × AllSameParent ids ss

abbrev pub UniqueSeqs : Map StreamId Stream → Type 0
UniqueSeqs ids = (p : StreamId) (s : Stream) → Map.get p ids ≡ some s → SameParent ids s

pub contains-cons :
    (x n : ℕ) (xs : List ℕ) → contains (x ∷ xs) n ≡ true → (n ≡ x) ⊎ (contains xs n ≡ true)
contains-cons x n xs h = elim (Bool-cases (x ≟ n)) [
  | inl e ↦ inl (sym (≟_eq x n e))
  | inr e ↦ inr (ground arith)
]

pub contains-cons_self : (x : ℕ) (xs : List ℕ) → contains (x ∷ xs) x ≡ true
contains-cons_self x xs = rw (≟_refl x)

pub contains-cons_later :
    (x n : ℕ) (xs : List ℕ) → contains xs n ≡ true → contains (x ∷ xs) n ≡ true
contains-cons_later x n xs h = ground arith

-- The entries of a map whose sequence numbers are not kept.
abbrev pub fresh : List ℕ → Map StreamId Stream → ℕ
fresh keep [] = 0
fresh keep ((p, s) ∷ m) = if contains keep s.created_seq then fresh keep m else suc (fresh keep m)

fresh-cons : (x : ℕ) (keep : List ℕ) (m : Map StreamId Stream) → fresh (x ∷ keep) m ≤ fresh keep m
fresh-cons x keep [] = omega arith
fresh-cons x keep ((p, s) ∷ m) = ground (arith, fresh-cons x keep m)

-- Keeping a stream of the map leaves fewer.
abbrev seq_of : Option Stream → ℕ
seq_of none = 0
seq_of (some s) = s.created_seq

fresh-get :
    (q : StreamId) (t : Stream) (keep : List ℕ) (m : Map StreamId Stream)
    → Map.get q m ≡ some t
    → contains keep t.created_seq ≡ false
    → fresh (t.created_seq ∷ keep) m < fresh keep m
unfolding Map.get
fresh-get q t keep [] h f = cc
fresh-get q t keep ((p, s) ∷ m) h f = elim (Bool-cases (p ≟ q)) [
  | inl e ↦
      let first : some s ≡ some t = rw (← h) (rw e refl) in
      let same : s.created_seq ≡ t.created_seq = ap seq_of first in
      let kept = contains-cons_self t.created_seq keep in
      rw same (rw (kept, f) (omega (arith, fresh-cons t.created_seq keep m)))
  | inr e ↦
      let later : Map.get q m ≡ some t = rw (← h) (rw e refl) in
      ground (arith, fresh-get q t keep m later f)
]

pub fresh_le : (keep : List ℕ) (m : Map StreamId Stream) → fresh keep m ≤ length m
fresh_le keep [] = omega arith
fresh_le keep ((p, s) ∷ m) = ground (arith, fresh_le keep m)

module _ (ids : Map StreamId Stream) where
  walk_missing :
      (fuel : ℕ) (p : StreamId) (keep : List ℕ)
      → Map.get p ids ≡ none
      → keep_ancestors (suc fuel) ids (some p) keep ≡ keep
  unfolding keep_ancestors
  walk_missing fuel p keep h = rw (h, keep_ancestors) refl

  walk_kept :
      (fuel : ℕ) (p : StreamId) (q : Stream) (keep : List ℕ)
      → Map.get p ids ≡ some q
      → contains keep q.created_seq ≡ true
      → keep_ancestors (suc fuel) ids (some p) keep ≡ keep
  unfolding keep_ancestors
  walk_kept fuel p q keep h k = rw (h, keep_ancestors) (rw k refl)

  walk_new :
      (fuel : ℕ) (p : StreamId) (q : Stream) (keep : List ℕ)
      → Map.get p ids ≡ some q
      → contains keep q.created_seq ≡ false
      → keep_ancestors (suc fuel) ids (some p) keep
        ≡ keep_ancestors fuel ids q.parent (q.created_seq ∷ keep)
  unfolding keep_ancestors
  walk_new fuel p q keep h k = rw (h, keep_ancestors) (rw k refl)

  -- Where a walk stops, the stream at its cursor is kept, if there is one.
  abbrev pub Stopped : Option StreamId → List ℕ → Type 0
  Stopped cursor keep =
      (p : StreamId) (q : Stream)
      → cursor ≡ some p
      → Map.get p ids ≡ some q
      → contains keep q.created_seq ≡ true

  Stopped-kept :
      (p : StreamId) (q : Stream) (keep : List ℕ)
      → Map.get p ids ≡ some q
      → contains keep q.created_seq ≡ true
      → Stopped (some p) keep
  Stopped-kept p q keep e k p' q' c e' =
      let same : p ≡ p' = cc in
      let both : some q ≡ some q' = rw (← e, ← e') (ap (λ x. Map.get x ids) same) in
      rw (← ap seq_of both) k

  Stopped-missing : (p : StreamId) (keep : List ℕ) → Map.get p ids ≡ none → Stopped (some p) keep
  Stopped-missing p keep e p' q' c e' =
      let same : p ≡ p' = cc in
      let both : none ≡ some q' = rw (← e, ← e') (ap (λ x. Map.get x ids) same) in absurd (cc)

  -- Induction over a walk that has a round for each stream that is not kept.
  pub walk_induction {ℓ} :
      (P : Option StreamId → List ℕ → List ℕ → Type ℓ)
      → ((cursor : Option StreamId) (keep : List ℕ) → Stopped cursor keep → P cursor keep keep)
      → ((p : StreamId) (q : Stream) (keep out : List ℕ)
          → Map.get p ids ≡ some q
          → P q.parent (q.created_seq ∷ keep) out
          → P (some p) keep out)
      → (fuel : ℕ) (cursor : Option StreamId) (keep : List ℕ) → fresh keep ids ≤ fuel
      → P cursor keep (keep_ancestors fuel ids cursor keep)
  unfolding keep_ancestors
  walk_induction P stop step fuel none keep f = stop none keep (λ p q c e. absurd (cc))
  walk_induction P stop step zero (some p) keep f = elim (Option-cases (Map.get p ids)) [
    | inl e ↦ stop (some p) keep (Stopped-missing p keep e)
    | inr (q, e) ↦ elim (Bool-cases (contains keep q.created_seq)) [
      | inl k ↦ stop (some p) keep (Stopped-kept p q keep e k)
      | inr k ↦ absurd (omega (arith, fresh-get p q keep ids e k))
    ]
  ]
  walk_induction P stop step (suc fuel) (some p) keep f = elim (Option-cases (Map.get p ids)) [
    | inl e ↦
        subst (P (some p) keep) (sym (walk_missing fuel p keep e))
          (stop (some p) keep (Stopped-missing p keep e))
    | inr (q, e) ↦ elim (Bool-cases (contains keep q.created_seq)) [
      | inl k ↦
          subst (P (some p) keep) (sym (walk_kept fuel p q keep e k))
            (stop (some p) keep (Stopped-kept p q keep e k))
      | inr k ↦ subst (P (some p) keep) (sym (walk_new fuel p q keep e k)) (
          step p q keep _ e (
            walk_induction P stop step fuel q.parent (q.created_seq ∷ keep)
              (omega (arith, fresh-get p q keep ids e k))))
    ]
  ]

  abbrev pub Sound : Option StreamId → List ℕ → List ℕ → Type 0
  Sound cursor keep out =
      (n : ℕ) → contains out n ≡ true → (contains keep n ≡ true) ⊎ Above ids cursor n

  -- All that a walk keeps was kept before or stands above its start.
  pub walk-Sound :
      (fuel : ℕ) (cursor : Option StreamId) (keep : List ℕ)
      → fresh keep ids ≤ fuel
      → Sound cursor keep (keep_ancestors fuel ids cursor keep)
  walk-Sound =
      walk_induction Sound (λ cursor keep s n h. inl h)
        (λ p q keep out e ih n h. elim (ih n h) [
          | inl c ↦ elim (contains-cons q.created_seq n keep c) [
            | inl same ↦ inr (subst (Above ids (some p)) (sym same) (here p q e))
            | inr old ↦ inl old
          ]
          | inr above ↦ inr (higher p q n e above)
        ])

  abbrev pub Keeps : Option StreamId → List ℕ → List ℕ → Type 0
  Keeps cursor keep out = (n : ℕ) → contains keep n ≡ true → contains out n ≡ true

  -- The parent of a kept stream is kept, but for the stream whose parent is the cursor.
  abbrev pub Closed : Option StreamId → List ℕ → Type 0
  Closed cursor keep =
      (id : StreamId) (t : Stream)
      → Map.get id ids ≡ some t
      → contains keep t.created_seq ≡ true
      → Stopped t.parent keep ⊎ (t.parent ≡ cursor)

  abbrev pub AllClosed : List ℕ → Type 0
  AllClosed keep =
      (id : StreamId) (t : Stream)
      → Map.get id ids ≡ some t
      → contains keep t.created_seq ≡ true
      → Stopped t.parent keep

  abbrev pub Closes : Option StreamId → List ℕ → List ℕ → Type 0
  Closes cursor keep out =
      Keeps cursor keep out × (Closed cursor keep → AllClosed out × Stopped cursor out)

  Stopped-cons :
      (x : ℕ) (cursor : Option StreamId) (keep : List ℕ)
      → Stopped cursor keep
      → Stopped cursor (x ∷ keep)
  Stopped-cons x cursor keep s p q c e = contains-cons_later x q.created_seq keep (s p q c e)

  -- Keeping the stream at the cursor moves the cursor to its parent.
  pub Closed-cons :
      (s : Stream) (cursor : Option StreamId) (keep : List ℕ)
      → SameParent ids s
      → (Stopped cursor (s.created_seq ∷ keep))
      → Closed cursor keep
      → Closed s.parent (s.created_seq ∷ keep)
  Closed-cons s cursor keep unique at closed id t e k =
      elim (contains-cons s.created_seq t.created_seq keep k) [
        | inl same ↦ inr (unique id t e same)
        | inr old ↦ elim (closed id t e old) [
          | inl done ↦ inl (Stopped-cons s.created_seq t.parent keep done)
          | inr there ↦ inl (rw there at)
        ]
      ]

  -- A walk closes the set.
  pub walk-Closes :
      UniqueSeqs ids
      → (fuel : ℕ) (cursor : Option StreamId) (keep : List ℕ) → fresh keep ids ≤ fuel
      → Closes cursor keep (keep_ancestors fuel ids cursor keep)
  walk-Closes unique =
      walk_induction Closes
        (λ cursor keep s. (
          λ n h. h,
          λ closed.
              (λ id t e k. elim (closed id t e k) [ inl done ↦ done | inr there ↦ rw there s ], s),
        ))
        (λ p q keep out e ih.
          let self = contains-cons_self q.created_seq keep in
          (
            λ n h. ih.0 n (contains-cons_later q.created_seq n keep h),
            λ closed.
                let at = Stopped-kept p q (q.created_seq ∷ keep) e self in
                (
                  (ih.1 (Closed-cons q (some p) keep (unique p q e) at closed)).0,
                  Stopped-kept p q out e (ih.0 q.created_seq self),
                ),
          ))
