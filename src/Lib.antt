-- ===== src/Lib.antt =====
-- pktflow dissects packets with plugins and folds them into streams. This library models its core,
-- crates/pktflow-core, its aggregation, crates/pktflow-flows, sixteen of the protocol plugins, and the
-- queries, tables and timelines of its view, crates/pktflow-view.
--
-- How the parts interact. An `Engine`, built once from plugins, holds the route table. For each
-- packet a `LayerIter` asks the router, layer by layer, which plugin parses the bytes that are left,
-- by the hint of the layer before; `dissect` returns the layers, the stop reason and, on request,
-- diagnostics of what stayed unknown. The `Aggregator` takes such packets one after the other: each
-- layer with a stream identity has a flow key, which finds its stream under the stream of the layer
-- before or makes one; the stream takes the packet's statistics, its lifecycle step and its rollups.
-- Streams leave by timeout (sweep), by the cap (enforce_max_streams) or at the end (finish). A lens
-- asks a `SnapshotIndex` over the streams of a snapshot for a page or a timeline. It lexes and parses
-- the query, evaluates it on each stream, and keeps the sets of the last query as a memo.
--
-- Which file models what:
--   Core/Bytes        crates/pktflow-core/src/bytes.rs (ByteReader)
--   Core/Value        crates/pktflow-core/src/value.rs (Value, FieldMap)
--   Core/Route, Error, Stream, Packet
--                     the files of these names in crates/pktflow-core/src
--   Core/Plugin       crates/pktflow-core/src/plugin.rs, context.rs and depth.rs
--   Core/Engine       crates/pktflow-core/src/engine.rs (EngineBuilder::build, Engine)
--   Core/Router       crates/pktflow-core/src/router.rs (resolve_next, heuristic_fallback)
--   Core/Diagnostics  crates/pktflow-core/src/diagnostics.rs (diagnose_unknown)
--   Core/Parser       crates/pktflow-core/src/parser.rs (layers, LayerIter::next, dissect)
--   Flows/Key         crates/pktflow-flows/src/key.rs (flow_key, encode_value)
--   Flows/Rollup      crates/pktflow-flows/src/rollup.rs (SeriesPoint, RollupSet)
--   Flows/Unknown     crates/pktflow-flows/src/unknown.rs (UnknownRegistry)
--   Flows/Store       crates/pktflow-flows/src/store.rs: the state, and below it Create
--                     (create_stream_raw), Candidates (condense_candidates), Condense
--                     (condense_fold, condense_evict), Evict (evict, sweep, enforce_max_streams,
--                     compact_lru), Finish (finish), Resolve (get_or_insert), Ingest (ingest) and
--                     Query (at_layer, at_layer_merged and the other listings) and Snapshot
--                     (summary, snapshot)
--   Plugins/Tcp, Udp  crates/pktflow-plugins/src/tcp.rs and udp.rs
--   Plugins/Link      ethernet.rs, vlan.rs and arp.rs there
--   Plugins/Ip, Icmp  ipv4.rs and ipv6.rs; icmpv4.rs, icmpv6.rs and igmp.rs
--   Plugins/Tunnel    vxlan.rs and ntp.rs
--   Plugins/Encapsulation
--                     gre.rs, ppp.rs, mpls.rs and esp.rs
--   View/Fmt, StreamView
--                     crates/pktflow-view/src/fmt.rs and stream_view.rs
--   View/Query        crates/pktflow-view/src/query.rs: the types, and below it Lex (lex, push_word),
--                     Parse (Parser, StreamQuery::parse), Eval (eval, compare) and Visible
--                     (matching_with_ancestors)
--   View/Index        crates/pktflow-view/src/index.rs (SnapshotIndex); Timeline below it (timeline)
--   Tests             a small engine, and an example of each result
-- The other modules below these hold proofs and are named for what they prove.
--
-- How state and data are modelled. A method that changes its object takes the state and returns the
-- new one. A plugin is a record of its methods, which may be any functions. A timestamp is a number
-- of nanoseconds since the epoch. A byte is a number. Counters of 64 bits wrap round, as in a release
-- build; saturating subtraction is the subtraction of the natural numbers. Hash maps are association
-- lists, binary heaps are ascending lists, and `Arc` is left out, since a record that a snapshot
-- shares is copied before it is changed. The hash functions of the standard library are parameters,
-- the fields of a `Hasher`; no result depends on them. The calls of the sink are the list `emitted`.
-- A text is the list of its UTF-8 bytes. What the query language takes from elsewhere is a `Runtime`:
-- floating-point numbers, the regex crate, the case tables of Unicode and the route resolver. A slice
-- off a character boundary is the failure `panic`.
--
-- Bounds and fuel. `drain` has a turn for each layer up to the cap and one to stop. The loop of the
-- fallback has a turn for each candidate. `evict_to` has one for each group. A sweep has one for
-- each entry of the heap and one for each slot, since only an eviction adds an entry that is due.
-- `enforce_max_streams` has two for each entry of its heap and one for each slot, since an entry is
-- refreshed at most once. `depth_of` has one for each slot. The checksum folds
-- its carries in two rounds, which is enough for 32 bits. The lexer has one for each byte, the parser
-- four for each token and four more, the walk over the ancestors of a match one for each stream, since
-- each adds a sequence number, and `chain` one for each stream, enough while no stream is its own
-- ancestor.
--
-- Not modelled: the other plugins of crates/pktflow-plugins; of the view the publication to readers,
-- JSON, dates and byte counts (the time crate, floating point); capture, command line, terminal and
-- web interfaces, which are input and output; serialization and display.
pub mod Prelude
pub mod Core
pub mod Flows
pub mod Plugins
pub mod View
pub mod Tests
