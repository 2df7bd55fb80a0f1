-- ===== src/Flows/Unknown/Occurrence.antt =====
-- What one occurrence makes of its group (ingest of crates/pktflow-flows/src/unknown.rs).
use pktflow.Prelude.{
  Eq, ℕ, suc, ◌+◌, ◌%◌, ◌^◌, ◌≤◌, ◌<◌, ◌≡◌, refl, ◌⊎◌, List, [], ◌∷◌, ◌++◌, Bool, true, false,
  Option, none, some, length, drop, min, max, leb, ltb, ◌≟◌, contains, if◌then◌else◌, arith,
  Bool-cases, inl, inr,
}
use pktflow.Prelude.Map.{Map, get, insert, contains_key}
use pktflow.Core.Packet.{ProtocolName, SystemTime, UnknownDiagnostics}
use pktflow.Flows.Unknown.{
  EndpointKey, endpoint_key_eq, UnknownKey, unknown_key_eq, UnknownGroup, UnknownRegistryConfig,
  UnknownRegistry, key_of, new_group, add_endpoint, better_misses, push_sample, update, group,
}

-- The endpoints and their overflow mark, from those before, behind an occurrence of an endpoint.
pub data EndpointsAfter (eps : List EndpointKey) (overflow : Bool)
    : Option EndpointKey → List EndpointKey × Bool → Type 0 where
  no_endpoint : EndpointsAfter eps overflow none (eps, overflow)
  known :
      (x : EndpointKey)
      → contains eps x ≡ true
      → EndpointsAfter eps overflow (some x) (eps, overflow)
  added :
      (x : EndpointKey)
      → contains eps x ≡ false
      → length eps < 64
      → EndpointsAfter eps overflow (some x) (eps ++ x ∷ [], overflow)
  full :
      (x : EndpointKey)
      → contains eps x ≡ false
      → 64 ≤ length eps
      → EndpointsAfter eps overflow (some x) (eps, true)

-- The ranking of a group, from the one before and that of an occurrence: the one with the higher
-- top score, and the later of two with one top score.
pub data RankingAfter
    : List (ProtocolName × ℕ) → List (ProtocolName × ℕ) → List (ProtocolName × ℕ) → Type 0 where
  nothing_new : (old : List (ProtocolName × ℕ)) → RankingAfter old [] old
  first_ranking :
      (top : ProtocolName × ℕ) (new : List (ProtocolName × ℕ))
      → RankingAfter [] (top ∷ new) (top ∷ new)
  replaced :
      (top best : ProtocolName × ℕ) (old new : List (ProtocolName × ℕ))
      → best.1 ≤ top.1
      → RankingAfter (best ∷ old) (top ∷ new) (top ∷ new)
  kept :
      (top best : ProtocolName × ℕ) (old new : List (ProtocolName × ℕ))
      → top.1 < best.1
      → RankingAfter (best ∷ old) (top ∷ new) (best ∷ old)

-- The group of a key at its first occurrence.
abbrev pub endpoint_list : Option EndpointKey → List EndpointKey
endpoint_list none = []
endpoint_list (some x) = x ∷ []

abbrev pub first_occurrence :
    UnknownKey → UnknownDiagnostics → ℕ → SystemTime → Option EndpointKey → UnknownGroup
first_occurrence key diag bytes ts ep = record {
  key = key;
  count = 1;
  bytes_total = bytes;
  bytes_min = bytes;
  bytes_max = bytes;
  first_seen = ts;
  last_seen = ts;
  endpoints = endpoint_list ep;
  endpoints_overflow = false;
  near_misses = diag.near_misses;
  samples = diag.sample ∷ [];
}

-- A group `h` that one more occurrence has made of the group `g`, with a ring of `size` samples.
pub record IsNext (g : UnknownGroup) (diag : UnknownDiagnostics) (bytes : ℕ) (ts : SystemTime)
    (ep : Option EndpointKey) (size : ℕ) (h : UnknownGroup) : Type 0 where
  pub same_key : h.key ≡ g.key
  pub counted : h.count ≡ (g.count + 1) % 2 ^ 64
  pub summed : h.bytes_total ≡ (g.bytes_total + bytes) % 2 ^ 64
  pub smallest : h.bytes_min ≡ min g.bytes_min bytes
  pub largest : h.bytes_max ≡ max g.bytes_max bytes
  pub earliest : h.first_seen ≡ min g.first_seen ts
  pub latest : h.last_seen ≡ max g.last_seen ts
  pub endpoints :
      EndpointsAfter g.endpoints g.endpoints_overflow ep (h.endpoints, h.endpoints_overflow)
  pub ranking : RankingAfter g.near_misses diag.near_misses h.near_misses
  pub sampled :
      h.samples ≡ drop (if leb size (length g.samples) then 1 else 0) g.samples ++ diag.sample ∷ []

-- The group of a key `k` behind an occurrence.
pub data Recorded (r : UnknownRegistry) (diag : UnknownDiagnostics) (bytes : ℕ) (ts : SystemTime)
    (ep : Option EndpointKey) (size : ℕ) (k : UnknownKey) : Option UnknownGroup → Type 0 where
  other : (key_of diag.context ≟ k) ≡ false → Recorded r diag bytes ts ep size k (group r k)
  fresh :
      (key_of diag.context ≟ k) ≡ true
      → group r k ≡ none
      → Recorded r diag bytes ts ep size k (some (first_occurrence k diag bytes ts ep))
  again :
      (g h : UnknownGroup)
      → (key_of diag.context ≟ k) ≡ true
      → group r k ≡ some g
      → IsNext g diag bytes ts ep size h
      → Recorded r diag bytes ts ep size k (some h)

-- The registry keeps all of its groups when an occurrence of the key comes in.
unfoldable pub HasRoom : UnknownRegistry → UnknownKey → ℕ → Type 0
HasRoom r key max_groups =
    (length r.groups < max_groups)
    ⊎ ((contains_key key r.groups ≡ true) × (length r.groups ≤ max_groups))

add_endpoint-EndpointsAfter :
    (eps : List EndpointKey) (overflow : Bool) (ep : Option EndpointKey)
    → EndpointsAfter eps overflow ep (add_endpoint eps overflow ep)
unfolding add_endpoint
add_endpoint-EndpointsAfter eps overflow none = EndpointsAfter.no_endpoint
add_endpoint-EndpointsAfter eps overflow (some x) = elim (Bool-cases (contains eps x)) [
  | inl e ↦ rw e (EndpointsAfter.known x e)
  | inr e ↦ elim (Bool-cases (ltb (length eps) 64)) [
    | inl room ↦ rw (e, room) (EndpointsAfter.added x e (ground arith))
    | inr over ↦ rw (e, over) (EndpointsAfter.full x e (ground arith))
  ]
]

better_misses-RankingAfter :
    (new old : List (ProtocolName × ℕ)) → RankingAfter old new (better_misses new old)
unfolding better_misses
better_misses-RankingAfter [] old = RankingAfter.nothing_new old
better_misses-RankingAfter (c ∷ new) [] = RankingAfter.first_ranking c new
better_misses-RankingAfter (c ∷ new) (d ∷ old) = elim (Bool-cases (leb (d.1) (c.1))) [
  | inl e ↦ rw e (RankingAfter.replaced c d old new (ground arith))
  | inr e ↦ rw e (RankingAfter.kept c d old new (ground arith))
]

push_sample_lem :
    (size : ℕ) (samples : List (List ℕ)) (sample : List ℕ)
    → push_sample size samples sample
      ≡ drop (if leb size (length samples) then 1 else 0) samples ++ sample ∷ []
unfolding push_sample
push_sample_lem size [] sample = ground arith
push_sample_lem size (x ∷ samples) sample = ground arith

pub update-IsNext :
    (g : UnknownGroup) (diag : UnknownDiagnostics) (bytes : ℕ) (ts : SystemTime)
    (ep : Option EndpointKey) (config : UnknownRegistryConfig)
    → IsNext g diag bytes ts ep config.samples_per_group (update g diag bytes ts ep config)
unfolding update
update-IsNext g diag bytes ts ep config = record {
  same_key = refl;
  counted = refl;
  summed = refl;
  smallest = refl;
  largest = refl;
  earliest = refl;
  latest = refl;
  endpoints = add_endpoint-EndpointsAfter g.endpoints g.endpoints_overflow ep;
  ranking = better_misses-RankingAfter diag.near_misses g.near_misses;
  sampled = push_sample_lem config.samples_per_group g.samples diag.sample;
}

better_misses_none : (new : List (ProtocolName × ℕ)) → better_misses new [] ≡ new
unfolding better_misses
better_misses_none [] = refl
better_misses_none (c ∷ new) = refl

push_sample_none : (size : ℕ) (sample : List ℕ) → push_sample size [] sample ≡ sample ∷ []
unfolding push_sample
push_sample_none size sample = ground arith

add_endpoint_none : (ep : Option EndpointKey) → add_endpoint [] false ep ≡ (endpoint_list ep, false)
unfolding add_endpoint
add_endpoint_none none = refl
add_endpoint_none (some x) = refl

new_group-sum : (bytes : ℕ) → bytes < 2 ^ 32 → (0 + bytes) % 2 ^ 64 ≡ bytes
new_group-sum bytes u32 = omega arith

new_group-min : (bytes : ℕ) → bytes < 2 ^ 32 → min 4294967295 bytes ≡ bytes
new_group-min bytes u32 = ground arith

max_zero : (n : ℕ) → max 0 n ≡ n
max_zero n = ground arith

min_self : (n : ℕ) → min n n ≡ n
min_self n = ground arith

max_self : (n : ℕ) → max n n ≡ n
max_self n = ground arith

pub update-new_group :
    (key : UnknownKey) (diag : UnknownDiagnostics) (bytes : ℕ) (ts : SystemTime)
    (ep : Option EndpointKey) (config : UnknownRegistryConfig)
    → bytes < 2 ^ 32
    → update (new_group key ts) diag bytes ts ep config ≡ first_occurrence key diag bytes ts ep
unfolding update new_group
update-new_group key diag bytes ts ep config u32 =
    rw
      (
        add_endpoint_none ep,
        better_misses_none diag.near_misses,
        push_sample_none config.samples_per_group diag.sample,
        new_group-sum bytes u32,
        new_group-min bytes u32,
        max_zero bytes,
        min_self ts,
        max_self ts,
      )
      refl

module _ {ℓ κ} {K : Type ℓ} {V : Type κ} ⦃e : Eq K⦄ where
  -- A key that stands in the map is not added again, and any other adds one entry.
  length-insert :
      (k : K) (v : V) (m : Map K V)
      → length (insert k v m) ≡ (if contains_key k m then length m else suc (length m))
  unfolding insert contains_key get
  length-insert k v [] = refl
  length-insert k v ((j, w) ∷ m) = ground (arith, length-insert k v m)

pub length-insert_room :
    (r : UnknownRegistry) (key : UnknownKey) (g : UnknownGroup) (max_groups : ℕ)
    → HasRoom r key max_groups
    → length (insert key g r.groups) ≤ max_groups
unfolding HasRoom
length-insert_room r key g max_groups (inl below) = ground (arith, length-insert key g r.groups)
length-insert_room r key g max_groups (inr (there, fits)) =
    ground (arith, length-insert key g r.groups)
