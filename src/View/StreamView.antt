-- ===== src/View/StreamView.antt =====
-- Display of streams (crates/pktflow-view/src/stream_view.rs). The snapshot of the store is the list
-- of its streams, and `by_id` is a map from handles to streams.
use pktflow.Prelude.{
  ℕ, zero, suc, List, [], ◌∷◌, ◌++◌, Bool, Option, none, some, length, min, max, ◌≟◌, string_eq,
  bytes_eq, if◌then◌else◌,
}
use pktflow.Prelude.Map
use pktflow.Prelude.Map.{Map}
use pktflow.Prelude.Words.{add64}
use pktflow.Prelude.Text.{Text, codes, strip_prefix, ends_with, join, decimal}
use pktflow.Core.Value.{Value, FieldName}
use pktflow.Core.Packet.{SystemTime}
use pktflow.Core.Stream.{a_to_b, b_to_a, PacketDirection}
use pktflow.Flows.Store.{
  StreamId, stream_id_eq, Stream, CloseReason, protocol_close, idle_timeout, lru_evicted,
  capture_end,
}
use pktflow.View.Fmt.{value_str, thousands}

-- `by_id`: a later stream of a handle replaces an earlier one.
unfoldable pub collect_by_id : List Stream → Map StreamId Stream → Map StreamId Stream
unfolding Map.insert
collect_by_id [] m = m
collect_by_id (s ∷ ss) m = collect_by_id ss (Map.insert s.id s m)

unfoldable pub by_id : List Stream → Map StreamId Stream
unfolding collect_by_id
by_id streams = collect_by_id streams []

-- `total_packets` and `total_bytes`
abbrev pub total_packets : Stream → ℕ
total_packets s = add64 s.stats.0.packets s.stats.1.packets

abbrev pub total_bytes : Stream → ℕ
total_bytes s = add64 s.stats.0.bytes s.stats.1.bytes

-- `FieldMap::get`, of a name that is put together.
unfoldable pub get_named : Text → List (FieldName × Value) → Option Value
get_named name [] = none
get_named name ((n, v) ∷ rest) = if codes n ≟ name then some v else get_named name rest

abbrev pub is_port_name : Text → Bool
is_port_name name = ends_with name (codes "port")

abbrev pub side_str : Text → Text → Text
side_str suffix text = if is_port_name suffix then b':' ∷ text else text

-- The two sides, and what is no side.
abbrev pub Sides : Type 0
Sides = List Text × List Text × List Text

abbrev pub add_pair : PacketDirection → Text → Text → Sides → Sides
add_pair a_to_b src dst (a, b, extras) = (src ∷ a, dst ∷ b, extras)
add_pair b_to_a src dst (a, b, extras) = (dst ∷ a, src ∷ b, extras)

abbrev pub add_extra : Text → Sides → Sides
add_extra extra (a, b, extras) = (a, b, extra ∷ extras)

-- A field whose name does not begin a pair.
unfoldable pub other_field : List (FieldName × Value) → FieldName → Value → Sides → Sides
unfolding get_named strip_prefix value_str
other_field all name value sides =
    let extra =
      if name ≟ "app" then sides else add_extra (codes name ++ b'=' ∷ value_str name value) sides in
    elim (strip_prefix (codes name) (codes "dst_")) [
      | none ↦ extra
      | some suffix ↦ elim (get_named (codes "src_" ++ suffix) all) [
        | none ↦ extra
        | some v ↦ sides
      ]
    ]

-- The body of the loop. `value_str` asks of a name only how it ends, so the source's name of a pair
-- stands for the destination's too.
unfoldable pub add_field :
    List (FieldName × Value) → PacketDirection → FieldName → Value → Sides → Sides
unfolding other_field get_named strip_prefix value_str
add_field all initiator name value sides = elim (strip_prefix (codes name) (codes "src_")) [
  | none ↦ other_field all name value sides
  | some suffix ↦ elim (get_named (codes "dst_" ++ suffix) all) [
    | none ↦ other_field all name value sides
    | some dst_value ↦
        add_pair initiator (side_str suffix (value_str name value))
          (side_str suffix (value_str name dst_value)) sides
  ]
]

unfoldable pub collect_sides :
    List (FieldName × Value) → PacketDirection → List (FieldName × Value) → Sides
unfolding add_field
collect_sides all initiator [] = ([], [], [])
collect_sides all initiator ((name, value) ∷ rest) =
    add_field all initiator name value (collect_sides all initiator rest)

abbrev pub star : Text → Text
star name = if is_port_name name then codes ":*" else codes "*"

abbrev pub anchor_str : FieldName → Option Value → Text
anchor_str name none = []
anchor_str name (some v) = side_str (codes name) (value_str name v)

-- `endpoint_sides`
unfoldable pub endpoint_sides : Stream → Text × Text × List Text
unfolding collect_sides value_str get_named
endpoint_sides s = elim s.condensed [
  | some info ↦
      let name = info.ephemeral_field in
      (anchor_str name (get_named (codes name) s.key_fields.entries), star (codes name), [])
  | none ↦
      let (a, b, extras) = collect_sides s.key_fields.entries s.initiator s.key_fields.entries in
      (join (codes ",") a, join (codes ",") b, extras)
]

-- ` ↔ `
abbrev pub arrow : Text
arrow = b' ' ∷ 0xE2 ∷ 0x86 ∷ 0x94 ∷ b' ' ∷ []

abbrev pub pair_str : Text → Text → Text
pair_str [] b = []
pair_str (c ∷ a) b = (c ∷ a) ++ arrow ++ b

abbrev pub behind_pair : Text → List Text → Text
behind_pair out [] = out
behind_pair [] (e ∷ es) = join (codes " ") (e ∷ es)
behind_pair (c ∷ out) (e ∷ es) = (c ∷ out) ++ b' ' ∷ join (codes " ") (e ∷ es)

-- `endpoints_str`
unfoldable pub endpoints_str : Stream → Text
unfolding endpoint_sides
endpoints_str s = let (a, b, extras) = endpoint_sides s in behind_pair (pair_str a b) extras

-- `condensed_marker`: `× ≥N flows`
unfoldable pub condensed_marker : Stream → Option Text
unfolding thousands
condensed_marker s = elim s.condensed [
  | none ↦ none
  | some info ↦ some (
      0xC3 ∷ 0x97 ∷ b' ' ∷ (if info.overflow then 0xE2 ∷ 0x89 ∷ 0xA5 ∷ [] else [])
      ++ thousands info.member_flows
      ++ codes " flows")
]

-- `close_reason_str`
unfoldable pub close_reason_str : CloseReason → Text
close_reason_str protocol_close = codes "protocol-close"
close_reason_str idle_timeout = codes "idle-timeout"
close_reason_str lru_evicted = codes "lru-evicted"
close_reason_str capture_end = codes "capture-end"

-- The streams from a handle up to its root, on fuel for each stream of the map.
unfoldable pub chain : ℕ → Map StreamId Stream → Option StreamId → List Stream
unfolding Map.get
chain fuel ids none = []
chain zero ids (some id) = []
chain (suc fuel) ids (some id) = elim (Map.get id ids) [
  | none ↦ []
  | some s ↦ s ∷ chain fuel ids s.parent
]

-- ` ▸ `
abbrev pub marker : Text
marker = b' ' ∷ 0xE2 ∷ 0x96 ∷ 0xB8 ∷ b' ' ∷ []

unfoldable pub entry_str : Stream → Text
unfolding endpoints_str decimal
entry_str s =
    let head = codes s.protocol ++ codes " #" ++ decimal s.created_seq in
    elim (endpoints_str s) [ [] ↦ head | c ∷ cs ↦ head ++ codes " (" ++ (c ∷ cs) ++ codes ")" ]

abbrev pub entries_reversed : List Stream → List Text → List Text
entries_reversed [] out = out
entries_reversed (s ∷ ss) out = entries_reversed ss (entry_str s ∷ out)

-- `lineage_str`
unfoldable pub lineage_str : Stream → Map StreamId Stream → Text
unfolding chain entry_str
lineage_str s ids = join marker (entries_reversed (chain (length ids) ids s.parent) [])

abbrev pub only_child : List StreamId → Option StreamId
only_child (id ∷ []) = some id
only_child ids = none

-- A stream and its only children below, on fuel for each stream of the map.
unfoldable pub child_parts : ℕ → Map StreamId Stream → Stream → List Text
unfolding Map.get entry_str
child_parts zero ids s = entry_str s ∷ []
child_parts (suc fuel) ids s = elim (only_child s.children) [
  | none ↦ entry_str s ∷ []
  | some only ↦ elim (Map.get only ids) [
    | none ↦ entry_str s ∷ []
    | some t ↦ entry_str s ∷ child_parts fuel ids t
  ]
]

-- `child_chain_str`
unfoldable pub child_chain_str : Stream → Map StreamId Stream → Text
unfolding child_parts
child_chain_str child ids = join marker (child_parts (length ids) ids child)

-- `capture_span`
unfoldable pub span_from : SystemTime → SystemTime → List Stream → SystemTime × SystemTime
span_from start end [] = (start, end)
span_from start end (s ∷ ss) = span_from (min start s.first_seen) (max end s.last_seen) ss

unfoldable pub capture_span : List Stream → Option (SystemTime × SystemTime)
unfolding span_from
capture_span [] = none
capture_span (s ∷ ss) = some (span_from s.first_seen s.last_seen ss)
