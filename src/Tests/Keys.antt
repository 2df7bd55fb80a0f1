-- ===== src/Tests/Keys.antt =====
-- Examples for values, flow keys, rollups and the registry of unknown occurrences.
use pktflow.Prelude.{
  ℕ, ◌-◌, ◌%◌, ◌^◌, ◌≤◌, List, [], ◌∷◌, ◌++◌, ◌≡◌, refl, none, some, false, contains, length, take,
  drop, ltb, if◌then◌else◌, arith, ◌≟◌, string_eq, bytes_eq, String-discrete, Bool-cases, inl,
}
use pktflow.Prelude.Result.{ok}
use pktflow.Core.Value
use pktflow.Core.Value.{
  Value, FieldMap, FieldName, empty, u64, str, list, bytes, cons, nil, get_entry,
}
use pktflow.Core.Value.Laws.{get-insert, insert-IsDistinct, names, IsDistinct}
use pktflow.Core.Bytes.Endian.{to_be}
use pktflow.Core.Packet.{UnknownDiagnostics, no_heuristic_winner}
use pktflow.Core.Stream.{FlowKey, a_to_b, b_to_a}
use pktflow.Flows.Key.{
  encode_value, flow_key, collect, add_component, canonical, no_sides, Sides, slice_le,
}
use pktflow.Flows.Key.Clip.{clip}
use pktflow.Flows.Key.Encoding.{encode_value-injective}
use pktflow.Flows.Key.Symmetry.{flow_key-mirror, flip}
use pktflow.Flows.Key.Ends.{Ends, ends, ends_from, component_ends}
use pktflow.Flows.Key.Identity.{clip_ends, flow_key-injective, SamePair}
use pktflow.Flows.Rollup.{new_point, point_ts, accumulated, series_of}
use pktflow.Flows.Rollup.History.{
  Observation, observe_all, distinct_from, points, point_ts-new_point, observe_all-accumulated,
  observe_all-series,
}
use pktflow.Flows.Unknown.{
  UnknownKey, UnknownRegistry, unknown_key_eq, empty_registry, default_config, key_of, group,
  ingest,
}
use pktflow.Flows.Unknown.Bounds.{ingest-AllBounded, ingest-group}
use pktflow.Flows.Unknown.Groups.{AllBounded}
use pktflow.Flows.Unknown.Occurrence.{Recorded, HasRoom, first_occurrence}
use pktflow.Tests.{pair_identity}

abbrev ports : FieldMap
ports = record { entries = ("src", u64 9) ∷ ("dst", u64 4) ∷ [] }

abbrev ports_back : FieldMap
ports_back = record { entries = ("src", u64 4) ∷ ("dst", u64 9) ∷ [] }

get-insert_example :
    Value.get (Value.insert ports "dst" (u64 5)) "src"
    ≡ (if ◌≟◌ {A = FieldName} "dst" "src" then some (u64 5) else Value.get ports "src")
get-insert_example = get-insert ports "dst" "src" (u64 5)

insert-IsDistinct_example :
    IsDistinct (names (Value.insert ports "ttl" (u64 5)).entries)
    × (names (Value.insert ports "ttl" (u64 5)).entries ≡ (
        if contains (names ports.entries) "ttl"
        then names ports.entries
        else names ports.entries ++ "ttl" ∷ []))
unfolding String-discrete Bool-cases
insert-IsDistinct_example = insert-IsDistinct ports "ttl" (u64 5) (refl, (refl, tt))

-- Four bytes in a list.
abbrev listed_bytes : Value
listed_bytes = list (cons (bytes (1 ∷ 2 ∷ 3 ∷ 4 ∷ [])) nil)

encode_value-injective_example :
    (encode_value listed_bytes [] ≡ encode_value (clip listed_bytes) [])
    × (clip listed_bytes ≡ clip listed_bytes)
    × ◌≡◌ {A = List ℕ} (1 ∷ []) (1 ∷ [])
encode_value-injective_example =
    encode_value-injective listed_bytes listed_bytes (1 ∷ []) (1 ∷ []) (tt, tt) (tt, tt) refl

abbrev port_sides : Sides
port_sides = record {
  shared = [];
  side_a = encode_value (u64 9) [];
  side_b = encode_value (u64 4) [];
}

collect-ports : collect ports pair_identity.key no_sides ≡ ok port_sides
unfolding collect add_component Value.get get_entry String-discrete Bool-cases
collect-ports = refl

flow_key-mirror_example :
    (flow_key pair_identity ports ≡ ok (canonical port_sides))
    × (flow_key pair_identity ports_back
        ≡ ok (
          (canonical port_sides).0,
          if port_sides.side_a ≟ port_sides.side_b then a_to_b else flip (canonical port_sides).1,
        ))
unfolding Value.get get_entry String-discrete Bool-cases
flow_key-mirror_example =
    flow_key-mirror pair_identity ports ports_back port_sides refl ((refl, refl), tt) collect-ports

abbrev port_ends : Ends
port_ends = record { shared = []; a = u64 9 ∷ []; b = u64 4 ∷ [] }

abbrev back_ends : Ends
back_ends = record { shared = []; a = u64 4 ∷ []; b = u64 9 ∷ [] }

ends-ports :
    (ends ports pair_identity.key ≡ some port_ends)
    × (ends ports_back pair_identity.key ≡ some back_ends)
unfolding ends ends_from component_ends Value.get get_entry String-discrete Bool-cases
ends-ports = (refl, refl)

abbrev port_key : FlowKey
port_key = (canonical port_sides).0

flow_key-ports :
    (flow_key pair_identity ports ≡ ok (port_key, b_to_a))
    × (flow_key pair_identity ports_back ≡ ok (port_key, a_to_b))
unfolding flow_key collect add_component canonical Value.get get_entry String-discrete Bool-cases
    slice_le encode_value to_be
flow_key-ports = (refl, refl)

flow_key-injective_example :
    ((clip_ends port_ends).shared ≡ (clip_ends back_ends).shared)
    × SamePair (clip_ends port_ends) (clip_ends back_ends)
flow_key-injective_example =
    flow_key-injective pair_identity ports ports_back port_ends back_ends port_key b_to_a a_to_b
      refl (ends-ports.0) (ends-ports.1)
      (record { shared = tt; a = (omega arith, tt); b = (omega arith, tt) })
      (record { shared = tt; a = (omega arith, tt); b = (omega arith, tt) }) (flow_key-ports.0)
      (flow_key-ports.1)

abbrev observations : List Observation
observations =
    record { ts = 5; dir = a_to_b; value = u64 1 }
    ∷ record { ts = 6; dir = b_to_a; value = u64 1 }
    ∷ record { ts = 8; dir = a_to_b; value = u64 2 }
    ∷ []

point_ts-new_point_example : point_ts (new_point 8 5 a_to_b (u64 1)) 8 ≡ 5
point_ts-new_point_example = point_ts-new_point 8 5 a_to_b (u64 1) (omega arith) (omega arith)

observe_all-accumulated_example :
    observe_all (accumulated [] 0 false) 5 observations
    ≡ accumulated
        (take 64 (distinct_from [] observations))
        (length observations % 2 ^ 64)
        (ltb 64 (length (distinct_from [] observations)))
observe_all-accumulated_example = observe_all-accumulated 5 observations

observe_all-series_example :
    observe_all (series_of [] 2 false) 5 observations
    ≡ series_of
        (drop (length (points 5 observations) - 2) (points 5 observations))
        2
        (ltb 2 (length (points 5 observations)))
observe_all-series_example = observe_all-series 2 5 observations (omega arith)

abbrev occurrence : UnknownDiagnostics
occurrence = record {
  context = no_heuristic_winner "udp";
  near_misses = ("dns", 20) ∷ [];
  sample = 1 ∷ 2 ∷ [];
}

ingest-AllBounded_example :
    AllBounded 5 (ingest empty_registry occurrence 2 7 none default_config).groups
    × (length (ingest empty_registry occurrence 2 7 none default_config).groups ≤ 500)
unfolding AllBounded
ingest-AllBounded_example = ingest-AllBounded empty_registry occurrence 2 7 none default_config tt

abbrev udp_key : UnknownKey
udp_key = record { predecessor = "udp"; route = none }

abbrev one_group : UnknownRegistry
one_group = record {
  groups = (udp_key, first_occurrence udp_key occurrence 2 7 none) ∷ [];
  seqs = (udp_key, 0) ∷ [];
  next_seq = 1;
}

one_group-HasRoom : HasRoom one_group (key_of occurrence.context) 500
unfolding HasRoom
one_group-HasRoom = inl (omega arith)

ingest-group_example :
    Recorded one_group occurrence 9 8 none 5 udp_key
      (group (ingest one_group occurrence 9 8 none default_config) udp_key)
ingest-group_example =
    ingest-group one_group occurrence 9 8 none default_config udp_key (omega arith)
      one_group-HasRoom
