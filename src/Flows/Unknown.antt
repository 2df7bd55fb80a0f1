-- ===== src/Flows/Unknown.antt =====
-- The registry of unknown occurrences (crates/pktflow-flows/src/unknown.rs). The hash maps are
-- association lists; the `while` loop of the eviction runs on as much fuel as there are groups.
pub mod Groups
pub mod Occurrence
pub mod Bounds
pub mod Listing
use pktflow.Prelude.{
  ℕ, zero, suc, ◌+◌, ◌-◌, ◌^◌, List, [], ◌∷◌, ◌++◌, Bool, true, false, ◌&&◌, ◌||◌, not, Option,
  none, some, length, min, max, leb, ltb, ◌≟◌, nat_eq, Eq, ℕ_discrete, String-discrete, contains,
  if◌then◌else◌,
}
use pktflow.Prelude.Map
use pktflow.Prelude.Map.{Map, get, insert, remove, contains_key, get_or}
use pktflow.Prelude.Words.{add64}
use pktflow.Core.Route.{RouteId, RouteId-discrete}
use pktflow.Core.Stream.{FlowKey, FlowKey-discrete}
use pktflow.Core.Packet.{
  ProtocolName, SystemTime, UnknownContext, unclaimed_route, no_heuristic_winner,
  UnknownDiagnostics,
}
use pktflow.Flows.Rollup.{accumulate_set_cap, pop_front}

pub record EndpointKey : Type 0 where
  pub protocol : ProtocolName
  pub key : FlowKey

unfoldable pub EndpointKey-discrete : Discrete EndpointKey
unfolding String-discrete FlowKey-discrete
EndpointKey-discrete = hlevel (String-discrete, FlowKey-discrete)

instance abbrev pub endpoint_key_eq : Eq EndpointKey
endpoint_key_eq = record { dec = EndpointKey-discrete }

pub record UnknownKey : Type 0 where
  pub predecessor : ProtocolName
  pub route : Option RouteId

unfoldable pub UnknownKey-discrete : Discrete UnknownKey
unfolding String-discrete RouteId-discrete
UnknownKey-discrete = hlevel (String-discrete, RouteId-discrete)

instance abbrev pub unknown_key_eq : Eq UnknownKey
unknown_key_eq = record { dec = UnknownKey-discrete }

-- `impl From<&UnknownContext> for UnknownKey`
unfoldable pub key_of : UnknownContext → UnknownKey
key_of (unclaimed_route predecessor route) = record {
  predecessor = predecessor;
  route = some route;
}
key_of (no_heuristic_winner predecessor) = record { predecessor = predecessor; route = none }

pub record UnknownGroup : Type 0 where
  pub key : UnknownKey
  pub count : ℕ
  pub bytes_total : ℕ
  pub bytes_min : ℕ
  pub bytes_max : ℕ
  pub first_seen : SystemTime
  pub last_seen : SystemTime
  pub endpoints : List EndpointKey
  pub endpoints_overflow : Bool
  pub near_misses : List (ProtocolName × ℕ)
  pub samples : List (List ℕ)

pub record UnknownRegistryConfig : Type 0 where
  pub max_groups : ℕ
  pub samples_per_group : ℕ

abbrev pub default_config : UnknownRegistryConfig
default_config = record { max_groups = 500; samples_per_group = 5 }

pub record UnknownRegistry : Type 0 where
  pub groups : Map UnknownKey UnknownGroup
  pub seqs : Map UnknownKey ℕ
  pub next_seq : ℕ

abbrev pub empty_registry : UnknownRegistry
empty_registry = record { groups = []; seqs = []; next_seq = 0 }

-- The closure of `or_insert_with`
unfoldable pub new_group : UnknownKey → SystemTime → UnknownGroup
new_group key ts = record {
  key = key;
  count = 0;
  bytes_total = 0;
  bytes_min = 2 ^ 32 - 1;
  bytes_max = 0;
  first_seen = ts;
  last_seen = ts;
  endpoints = [];
  endpoints_overflow = false;
  near_misses = [];
  samples = [];
}

-- The endpoints with their overflow mark, behind one more occurrence.
unfoldable pub add_endpoint : List EndpointKey → Bool → Option EndpointKey → List EndpointKey × Bool
add_endpoint eps overflow none = (eps, overflow)
add_endpoint eps overflow (some ep) =
    if contains eps ep
    then (eps, overflow)
    else if ltb (length eps) accumulate_set_cap
    then (eps ++ ep ∷ [], overflow)
    else (eps, true)

-- The comparison of the top scores: the candidate's list is not empty, and `None` is below `Some`.
unfoldable pub better_misses :
    List (ProtocolName × ℕ) → List (ProtocolName × ℕ) → List (ProtocolName × ℕ)
better_misses [] current = current
better_misses (c ∷ candidate) [] = c ∷ candidate
better_misses (c ∷ candidate) (d ∷ current) = if leb (d.1) (c.1) then c ∷ candidate else d ∷ current

unfoldable pub push_sample : ℕ → List (List ℕ) → List ℕ → List (List ℕ)
push_sample size samples sample =
    if leb size (length samples) then pop_front samples ++ sample ∷ [] else samples ++ sample ∷ []

-- The changes of one occurrence to its group.
unfoldable pub update :
    UnknownGroup
    → UnknownDiagnostics
    → ℕ
    → SystemTime
    → Option EndpointKey
    → UnknownRegistryConfig
    → UnknownGroup
unfolding add_endpoint better_misses push_sample
update g diag bytes ts endpoint config =
    let eps = add_endpoint g.endpoints g.endpoints_overflow endpoint in
    record {
      key = g.key;
      count = add64 g.count 1;
      bytes_total = add64 g.bytes_total bytes;
      bytes_min = min g.bytes_min bytes;
      bytes_max = max g.bytes_max bytes;
      first_seen = min g.first_seen ts;
      last_seen = max g.last_seen ts;
      endpoints = eps.0;
      endpoints_overflow = eps.1;
      near_misses = better_misses diag.near_misses g.near_misses;
      samples = push_sample config.samples_per_group g.samples diag.sample;
    }

-- `min_by_key` on `(last_seen, seq)`: the earliest of equal ones.
unfoldable pub colder : Map UnknownKey ℕ → UnknownGroup → UnknownGroup → Bool
unfolding get_or
colder seqs g h =
    ltb g.last_seen h.last_seen
    || ((g.last_seen ≟ h.last_seen) && ltb (get_or g.key 0 seqs) (get_or h.key 0 seqs))

unfoldable pub coldest : Map UnknownKey ℕ → Map UnknownKey UnknownGroup → Option UnknownGroup
unfolding colder
coldest seqs [] = none
coldest seqs ((k, g) ∷ rest) = elim (coldest seqs rest) [
  | none ↦ some g
  | some h ↦ if colder seqs h g then some h else some g
]

-- `enforce_max_groups`
unfoldable pub evict_to : ℕ → UnknownRegistry → ℕ → UnknownRegistry
unfolding coldest remove
evict_to zero r max_groups = r
evict_to (suc fuel) r max_groups =
    if leb (length r.groups) max_groups then r else elim (coldest r.seqs r.groups) [
      | none ↦ r
      | some g ↦
          evict_to fuel
            (record {
              groups = remove g.key r.groups;
              seqs = remove g.key r.seqs;
              next_seq = r.next_seq;
            })
            max_groups
    ]

unfoldable pub enforce_max_groups : UnknownRegistry → ℕ → UnknownRegistry
unfolding evict_to
enforce_max_groups r max_groups = evict_to (length r.groups) r max_groups

-- The insertion number of a key that the registry does not have yet.
unfoldable pub number_key : UnknownKey → UnknownRegistry → UnknownRegistry
unfolding contains_key insert
number_key key r = if contains_key key r.seqs then r else record {
  groups = r.groups;
  seqs = insert key r.next_seq r.seqs;
  next_seq = add64 r.next_seq 1;
}

-- `group`
unfoldable pub group : UnknownRegistry → UnknownKey → Option UnknownGroup
unfolding get
group r key = get key r.groups

-- The group of a key, updated: what `ingest` does before the cap.
unfoldable pub record_occurrence :
    UnknownRegistry
    → UnknownDiagnostics
    → ℕ
    → SystemTime
    → Option EndpointKey
    → UnknownRegistryConfig
    → UnknownRegistry
unfolding key_of number_key get_or insert new_group update
record_occurrence r diag bytes ts endpoint config =
    let key = key_of diag.context in
    let numbered = number_key key r in
    record {
      groups =
          insert key
            (update (get_or key (new_group key ts) numbered.groups) diag bytes ts endpoint config)
            numbered.groups;
      seqs = numbered.seqs;
      next_seq = numbered.next_seq;
    }

unfoldable pub ingest :
    UnknownRegistry
    → UnknownDiagnostics
    → ℕ
    → SystemTime
    → Option EndpointKey
    → UnknownRegistryConfig
    → UnknownRegistry
unfolding record_occurrence enforce_max_groups
ingest r diag bytes ts endpoint config =
    enforce_max_groups (record_occurrence r diag bytes ts endpoint config) config.max_groups
