-- ===== src/Plugins/Tcp.antt =====
-- TCP (crates/pktflow-plugins/src/tcp.rs): the lifecycle, the parser and the probe. A mask of one
-- bit is a test of that bit, and shifts and masks of several bits are `/` and `%`.
pub mod Lifecycle
use pktflow.Prelude.{
  ℕ, ◌+◌, ◌-◌, ◌*◌, ◌/◌, ◌%◌, ◌^◌, List, [], ◌∷◌, Bool, true, false, not, ◌&&◌, ◌||◌, Option, none,
  some, length, get_elem?, leb, ltb, ◌==◌, ◌≟◌, string_eq, if◌then◌else◌,
}
use pktflow.Prelude.Result.{Result, ok, err, ◌>>=◌}
use pktflow.Core.Bytes
use pktflow.Core.Bytes.{ByteReader, Read, u16_be, u32_be}
use pktflow.Core.Value
use pktflow.Core.Value.{Value, FieldMap, FieldName, empty, u64, bytes}
use pktflow.Core.Route.{RouteId, tcp_port, ip_protocol}
use pktflow.Core.Error.{ParseError}
use pktflow.Core.Stream.{
  KeyField, PacketDirection, StateName, LifecycleSpec, RollupSpec, accumulate, series,
  endpoint_sort, StreamIdentity, CondenseSpec,
}
use pktflow.Core.Plugin.{
  Plugin, ParseCtx, ParsedLayer, Hint, terminal, candidates, Depth, keys, structural, full,
  at_least, confidence,
}

-- `n & (1 << k) != 0`
abbrev pub bit : ℕ → ℕ → Bool
bit n k = (n / 2 ^ k) % 2 == 1

-- The transitions behind the check for a reset.
unfoldable pub tcp_transition : StateName → Bool → Bool → Bool → StateName
tcp_transition state syn ack fin =
    if (state ≟ "new") && syn && not ack
    then "syn_sent"
    else if (state ≟ "new") && not syn
    then "established_midstream"
    else if (state ≟ "syn_sent") && syn && ack
    then "syn_received"
    else if (state ≟ "syn_received") && ack && not syn && not fin
    then "established"
    else if ((state ≟ "established") || (state ≟ "established_midstream")) && fin
    then "closing"
    else if (state ≟ "closing") && fin && ack
    then "closed"
    else state

abbrev flagged : ℕ → StateName → StateName
flagged flags state =
    if bit flags 2 then "reset" else tcp_transition state (bit flags 1) (bit flags 4) (bit flags 0)

-- What a value of the flags field does; only a `U64` counts.
abbrev pub tcp_step : Option Value → StateName → StateName
tcp_step (some (u64 flags)) state = flagged flags state
tcp_step _ state = state

-- `advance`
unfoldable pub tcp_advance : FieldMap → StateName → PacketDirection → StateName
unfolding tcp_transition Value.get
tcp_advance fields state dir = tcp_step (Value.get fields "flags") state

abbrev pub port_pair : KeyField
port_pair = record { a = "src_port"; b = some "dst_port" }

abbrev pub tcp_closed_states : List StateName
tcp_closed_states = "closed" ∷ "reset" ∷ []

unfoldable pub tcp_lifecycle : LifecycleSpec
unfolding tcp_advance
tcp_lifecycle = record { initial = "new"; advance = tcp_advance; closed_states = tcp_closed_states }

unfoldable pub tcp_identity : StreamIdentity
unfolding tcp_lifecycle
tcp_identity = record {
  key = port_pair ∷ [];
  canonicalize = endpoint_sort;
  lifecycle = some tcp_lifecycle;
  rollups =
      record { field = "flags"; kind = accumulate }
      ∷ record { field = "flags"; kind = series 1024 }
      ∷ [];
}

-- `?` on a read, which turns `Truncated` into a `ParseError`.
abbrev pub read : {A : Type 0} → Read A → Result ParseError (A × ByteReader)
read (ok r) = ok r
read (err t) = err (ParseError.truncated t)

-- `fields.insert` under `if ctx.depth() >= d`, for the fields of one depth.
abbrev pub insert_all : FieldMap → List (FieldName × Value) → FieldMap
insert_all m [] = m
insert_all m ((n, v) ∷ rest) = insert_all (Value.insert m n v) rest

abbrev pub insert_at : ParseCtx → Depth → List (FieldName × Value) → FieldMap → FieldMap
insert_at ctx d entries m = if at_least ctx.depth d then insert_all m entries else m

abbrev pub options_entry : List ℕ → List (FieldName × Value)
options_entry [] = []
options_entry (b ∷ bs) = ("options", bytes (b ∷ bs)) ∷ []

-- The `parse` of the plugin
unfoldable pub tcp_parse : List ℕ → ParseCtx → Result ParseError ParsedLayer
unfolding u16_be u32_be Bytes.take Bytes.new Value.insert
tcp_parse input ctx = do
  (src_port, r) ← read (u16_be (Bytes.new input))
  (dst_port, r) ← read (u16_be r)
  (seq, r) ← read (u32_be r)
  (ack, r) ← read (u32_be r)
  (offset_flags, r) ← read (u16_be r)
  let data_offset = offset_flags / 4096 in
      if ltb data_offset 5 then err (ParseError.malformed "data offset below 5") else (do
        (window, r) ← read (u16_be r)
        (checksum, r) ← read (u16_be r)
        (urgent, r) ← read (u16_be r)
        (options, r) ← read (Bytes.take r (data_offset * 4 - 20))
        let port_fields =
              insert_at ctx keys (("src_port", u64 src_port) ∷ ("dst_port", u64 dst_port) ∷ [])
                empty in
            let structural_fields =
              insert_at ctx structural
                (("flags", u64 (offset_flags % 512))
                  ∷ ("seq", u64 seq)
                  ∷ ("ack", u64 ack)
                  ∷ ("window", u64 window)
                  ∷ ("data_offset", u64 data_offset)
                  ∷ [])
                port_fields in
            let fields =
              insert_at ctx full (("checksum", u64 checksum) ∷ ("urgent", u64 urgent) ∷ [])
                structural_fields in
            ok (record {
              header_len = data_offset * 4;
              fields = insert_at ctx full (options_entry options) fields;
              hint =
                  if length input == data_offset * 4
                  then terminal
                  else candidates (tcp_port dst_port ∷ tcp_port src_port ∷ []);
            }))

-- Two bytes of the input, big-endian.
abbrev pub word_at : List ℕ → ℕ → Option ℕ
word_at input i = elim (get_elem? input i) [
  | none ↦ none
  | some hi ↦ elim (get_elem? input (i + 1)) [ none ↦ none | some lo ↦ some (256 * hi + lo) ]
]

-- Whether the header's words pass the structural checks of `probe`.
unfoldable pub plausible : ℕ → ℕ → ℕ → Bool
plausible len offset_flags urgent =
    let data_offset = offset_flags / 4096 in
    let f = offset_flags % 256 in
    leb 5 data_offset
    && leb data_offset 15
    && leb (data_offset * 4) len
    && (offset_flags / 256 % 16 == 0)
    && not ((f == 0) || (bit f 1 && bit f 0) || (bit f 1 && bit f 2) || (bit f 0 && bit f 2))
    && not (not (urgent == 0) && not (bit f 5))

-- The `probe` of the plugin
unfoldable pub tcp_probe : List ℕ → ParseCtx → Option ℕ
unfolding plausible confidence
tcp_probe input ctx = if ltb (length input) 20 then none else elim (word_at input 12) [
  | none ↦ none
  | some offset_flags ↦ elim (word_at input 18) [
    | none ↦ none
    | some urgent ↦
        if plausible (length input) offset_flags urgent then some (confidence 60) else none
  ]
]

-- `impl LayerPlugin for Tcp`
unfoldable pub tcp : Plugin
unfolding tcp_parse tcp_probe tcp_identity
tcp = record {
  name = "tcp";
  parse = tcp_parse;
  claims = ip_protocol 6 ∷ [];
  expected_predecessors = "ipv4" ∷ "ipv6" ∷ [];
  has_probe = true;
  probe = tcp_probe;
  stream_identity = some tcp_identity;
  condense = some (record { ephemeral = port_pair });
}
