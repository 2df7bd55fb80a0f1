-- ===== src/View/Index/Order.antt =====
-- The order of a table (order of crates/pktflow-view/src/index.rs).
use pktflow.Prelude.{
  ◌+◌, ◌-◌, ◌%◌, ◌^◌, min, inl, inr, ◌<◌, ◌≤◌, ◌≡◌, List, [], ◌∷◌, true, false, if_cases, ◌⊎◌,
  arith,
}
use mathlib.Core.List.Perm
use mathlib.Core.List.{Perm}
use pktflow.Flows.Store.{Stream}
use pktflow.View.Index.{
  SortKey, by_bytes, by_packets, by_first_seen, by_duration, u128_max, sort_value, sorts_before,
  insert_row, order,
}

-- What a key puts first: more bytes, more packets, an earlier first packet, or a longer time between
-- first and last packet.
abbrev pub Ahead : SortKey → Stream → Stream → Type 0
Ahead by_bytes s t =
    (t.stats.0.bytes + t.stats.1.bytes) % 2 ^ 64 < (s.stats.0.bytes + s.stats.1.bytes) % 2 ^ 64
Ahead by_packets s t =
    (t.stats.0.packets + t.stats.1.packets) % 2 ^ 64
    < (s.stats.0.packets + s.stats.1.packets) % 2 ^ 64
Ahead by_first_seen s t = min s.first_seen u128_max < min t.first_seen u128_max
Ahead by_duration s t = t.last_seen - t.first_seen < s.last_seen - s.first_seen

-- What a key does not tell apart.
abbrev pub Level : SortKey → Stream → Stream → Type 0
Level by_bytes s t =
    (s.stats.0.bytes + s.stats.1.bytes) % 2 ^ 64 ≡ (t.stats.0.bytes + t.stats.1.bytes) % 2 ^ 64
Level by_packets s t =
    (s.stats.0.packets + s.stats.1.packets) % 2 ^ 64
    ≡ (t.stats.0.packets + t.stats.1.packets) % 2 ^ 64
Level by_first_seen s t = min s.first_seen u128_max ≡ min t.first_seen u128_max
Level by_duration s t = s.last_seen - s.first_seen ≡ t.last_seen - t.first_seen

value-Ahead : (key : SortKey) (s t : Stream) → sort_value key t < sort_value key s → Ahead key s t
value-Ahead by_bytes s t h = h
value-Ahead by_packets s t h = h
value-Ahead by_first_seen s t h = omega (arith, h)
value-Ahead by_duration s t h = h

value-Level : (key : SortKey) (s t : Stream) → sort_value key s ≡ sort_value key t → Level key s t
value-Level by_bytes s t h = h
value-Level by_packets s t h = h
value-Level by_first_seen s t h = omega (arith, h)
value-Level by_duration s t h = h

module _ (key : SortKey) where
  -- One stream stands before another, or has a lower or equal sequence number beside it.
  abbrev pub Before : Stream → Stream → Type 0
  Before s t = Ahead key s t ⊎ (Level key s t × (s.created_seq ≤ t.created_seq))

  abbrev pub OrderedFrom : Stream → List Stream → Type 0
  OrderedFrom s [] = Unit
  OrderedFrom s (t ∷ ts) = Before s t × OrderedFrom t ts

  abbrev pub Ordered : List Stream → Type 0
  Ordered [] = Unit
  Ordered (s ∷ ss) = OrderedFrom s ss

  ByValue : Stream → Stream → Type 0
  ByValue s t =
      (sort_value key t < sort_value key s)
      ⊎ ((sort_value key s ≡ sort_value key t) × (s.created_seq ≤ t.created_seq))

  ByValue-Before : (s t : Stream) → ByValue s t → Before s t
  unfolding ByValue
  ByValue-Before s t (inl h) = inl (value-Ahead key s t h)
  ByValue-Before s t (inr (h, l)) = inr (value-Level key s t h, l)

  sorts_before-Before : (s t : Stream) → sorts_before key s t ≡ true → Before s t
  unfolding ByValue
  sorts_before-Before s t h = ByValue-Before s t (ground arith)

  sorts_before-total : (s t : Stream) → sorts_before key s t ≡ false → Before t s
  unfolding ByValue
  sorts_before-total s t h = ByValue-Before t s (ground arith)

  insert_row-OrderedFrom :
      (s t : Stream) (ts : List Stream)
      → Before t s
      → OrderedFrom t ts
      → OrderedFrom t (insert_row key s ts)
  unfolding insert_row
  insert_row-OrderedFrom s t [] b o = (b, tt)
  insert_row-OrderedFrom s t (u ∷ us) b (c, o) =
      if_cases (OrderedFrom t) (sorts_before key s u) _ _ (λ h. (b, (sorts_before-Before s u h, o)))
        (λ h. (c, insert_row-OrderedFrom s u us (sorts_before-total s u h) o))

  insert_row-Ordered : (s : Stream) (ts : List Stream) → Ordered ts → Ordered (insert_row key s ts)
  unfolding insert_row
  insert_row-Ordered s [] o = tt
  insert_row-Ordered s (u ∷ us) o =
      if_cases Ordered (sorts_before key s u) _ _ (λ h. (sorts_before-Before s u h, o))
        (λ h. insert_row-OrderedFrom s u us (sorts_before-total s u h) o)

  insert_row-Perm : (s : Stream) (ts : List Stream) → Perm (insert_row key s ts) (s ∷ ts)
  unfolding insert_row
  insert_row-Perm s [] = Perm.rfl
  insert_row-Perm s (u ∷ us) =
      if_cases (λ out. Perm out (s ∷ u ∷ us)) (sorts_before key s u) _ _ (λ h. Perm.rfl)
        (λ h. Perm.trans (Perm.cons u (insert_row-Perm s us)) (Perm.swap s u us))

  -- The rows in the order of a key are the streams of the snapshot, each as often as there: those with
  -- more bytes first (of both directions, modulo 2^64), or with more packets, or with the earlier first
  -- packet (up to the largest number of 128 bits), or with the longer time between first and last
  -- packet, as the key says; and the lower sequence number first among those that it does not tell apart.
  pub order-Ordered : (ss : List Stream) → Ordered (order key ss) × Perm (order key ss) ss
  unfolding order
  order-Ordered [] = (tt, Perm.rfl)
  order-Ordered (s ∷ ss) =
      let (o, p) = order-Ordered ss in
      (
        insert_row-Ordered s (order key ss) o,
        Perm.trans (insert_row-Perm s (order key ss)) (Perm.cons s p),
      )
