-- ===== src/Plugins/Encapsulation.antt =====
-- GRE, PPP, MPLS and ESP (crates/pktflow-plugins/src/gre.rs, ppp.rs, mpls.rs and esp.rs).
use pktflow.Prelude.{
  ℕ, zero, suc, ◌+◌, ◌-◌, ◌*◌, ◌/◌, ◌%◌, List, [], ◌∷◌, ◌++◌, Option, none, some, Bool, true, false,
  not, length, ◌==◌, if◌then◌else◌,
}
use pktflow.Prelude.Result.{Result, ok, err, ◌>>=◌}
use pktflow.Core.Bytes
use pktflow.Core.Bytes.{ByteReader, u8, u16_be, u32_be}
use pktflow.Core.Value
use pktflow.Core.Value.{Value, Values, FieldName, empty, u64, list, nil, cons}
use pktflow.Core.Route.{RouteId, ether_type, ip_protocol}
use pktflow.Core.Error.{ParseError}
use pktflow.Core.Stream.{RollupSpec, sample, endpoint_sort, StreamIdentity}
use pktflow.Core.Plugin.{
  Plugin, ParseCtx, ParsedLayer, Hint, route, by_protocol, unknown, terminal, keys, structural,
  full,
}
use pktflow.Plugins.Tcp.{read, insert_at, bit}

-- One stream for each value of a field.
abbrev pub qualified_by : FieldName → List RollupSpec → StreamIdentity
qualified_by name rollups = record {
  key = record { a = name; b = none } ∷ [];
  canonicalize = endpoint_sort;
  lifecycle = none;
  rollups = rollups;
}

-- A plugin without a probe.
abbrev pub probe_less :
    FieldName
    → (List ℕ → ParseCtx → Result ParseError ParsedLayer)
    → List RouteId
    → Option StreamIdentity
    → Plugin
probe_less name parse claims identity = record {
  name = name;
  parse = parse;
  claims = claims;
  expected_predecessors = [];
  has_probe = false;
  probe = λ input ctx. none;
  stream_identity = identity;
  condense = none;
}

-- The optional words of GRE: the checksum with what is reserved behind it, the key, the sequence.
unfoldable pub gre_checksum : Bool → ByteReader → Result ParseError (Option ℕ × ByteReader)
unfolding u16_be
gre_checksum false r = ok (none, r)
gre_checksum true r = do
  (checksum, r) ← read (u16_be r)
  (reserved, r) ← read (u16_be r)
  ok (some checksum, r)

unfoldable pub gre_word : Bool → ByteReader → Result ParseError (Option ℕ × ByteReader)
unfolding u32_be
gre_word false r = ok (none, r)
gre_word true r = do (n, r) ← read (u32_be r); ok (some n, r)

abbrev pub optional_len : Bool → ℕ
optional_len true = 4
optional_len false = 0

abbrev pub key_or_zero : Option ℕ → ℕ
key_or_zero none = 0
key_or_zero (some key) = key

abbrev pub optional_entry : FieldName → Option ℕ → List (FieldName × Value)
optional_entry name none = []
optional_entry name (some n) = (name, u64 n) ∷ []

unfoldable pub gre_parse : List ℕ → ParseCtx → Result ParseError ParsedLayer
unfolding u16_be Bytes.new Value.insert gre_checksum gre_word
gre_parse input ctx = do
  (flags_version, r) ← read (u16_be (Bytes.new input))
  if not (flags_version % 8 == 0) then err (ParseError.malformed "GRE version is not 0") else (do
    (protocol, r) ← read (u16_be r)
    (checksum, r) ← gre_checksum (bit flags_version 15) r
    (key, r) ← gre_word (bit flags_version 13) r
    (sequence, r) ← gre_word (bit flags_version 12) r
    let key_field = insert_at ctx keys (("key", u64 (key_or_zero key)) ∷ []) empty in
        let structural_fields =
          insert_at ctx structural
            (("flags", u64 (flags_version / 4096))
              ∷ ("protocol", u64 protocol)
              ∷ ("version", u64 (flags_version % 8))
              ∷ [])
            key_field in
        ok (record {
          header_len =
              4
              + optional_len (bit flags_version 15)
              + optional_len (bit flags_version 13)
              + optional_len (bit flags_version 12);
          fields =
              insert_at ctx full
                (optional_entry "checksum" checksum ++ optional_entry "sequence" sequence)
                structural_fields;
          hint = route (ether_type protocol);
        }))

-- `impl LayerPlugin for Gre`
unfoldable pub gre : Plugin
unfolding gre_parse
gre = probe_less "gre" gre_parse (ip_protocol 47 ∷ []) (some (qualified_by "key" []))

-- The protocol field, whose first octet is odd where it is the only one.
unfoldable pub ppp_protocol : ℕ → ByteReader → Result ParseError (ℕ × ByteReader)
unfolding u8
ppp_protocol first r =
    if first % 2 == 1
    then ok (first, r)
    else (do (second, r) ← read (u8 r); ok (256 * first + second, r))

abbrev pub ppp_hint : ℕ → Hint
ppp_hint protocol =
    if protocol == 0x0021
    then route (ether_type 0x0800)
    else if protocol == 0x0057
    then route (ether_type 0x86DD)
    else terminal

unfoldable pub ppp_parse : List ℕ → ParseCtx → Result ParseError ParsedLayer
unfolding u8 Bytes.new Bytes.remaining Value.insert ppp_protocol
ppp_parse input ctx = do
  (first, r) ← read (u8 (Bytes.new input))
  (protocol, r) ← ppp_protocol first r
  ok (record {
    header_len = length input - Bytes.remaining r;
    fields = insert_at ctx structural (("protocol", u64 protocol) ∷ []) empty;
    hint = ppp_hint protocol;
  })

-- `impl LayerPlugin for Ppp`
unfoldable pub ppp : Plugin
unfolding ppp_parse
ppp = probe_less "ppp" ppp_parse [] none

abbrev pub max_labels : ℕ
max_labels = 16

-- The loop over the entries, with the number of them that it may still take. The last one has the
-- bottom-of-stack bit.
unfoldable pub label_stack : ℕ → ByteReader → Result ParseError (List ℕ × ByteReader)
unfolding u32_be
label_stack zero r = err (ParseError.malformed "MPLS: label stack too deep")
label_stack (suc left) r = do
  (entry, r) ← read (u32_be r)
  let deeper = (do (entries, r) ← label_stack left r; ok (entry ∷ entries, r)) in
      if bit entry 8 then ok (entry ∷ [], r) else deeper

abbrev pub top_entry : List ℕ → ℕ
top_entry [] = 0
top_entry (e ∷ es) = e

abbrev pub bottom_label : List ℕ → ℕ
bottom_label [] = 0
bottom_label (e ∷ []) = e / 4096
bottom_label (e ∷ f ∷ es) = bottom_label (f ∷ es)

abbrev pub label_values : List ℕ → Values
label_values [] = nil
label_values (e ∷ es) = cons (u64 (e / 4096)) (label_values es)

abbrev pub mpls_hint : ℕ → Hint
mpls_hint label =
    if label == 0 then by_protocol "ipv4" else if label == 2 then by_protocol "ipv6" else unknown

unfoldable pub mpls_parse : List ℕ → ParseCtx → Result ParseError ParsedLayer
unfolding Bytes.new Value.insert label_stack
mpls_parse input ctx = do
  (entries, r) ← label_stack max_labels (Bytes.new input)
  let label_field = insert_at ctx keys (("label", u64 (top_entry entries / 4096)) ∷ []) empty in
      let structural_fields =
        insert_at ctx structural
          (("stack_depth", u64 (length entries))
            ∷ ("tc", u64 (top_entry entries / 512 % 8))
            ∷ ("ttl", u64 (top_entry entries % 256))
            ∷ [])
          label_field in
      ok (record {
        header_len = 4 * length entries;
        fields =
            insert_at ctx full (("labels", list (label_values entries)) ∷ []) structural_fields;
        hint = mpls_hint (bottom_label entries);
      })

-- `impl LayerPlugin for Mpls`
unfoldable pub mpls : Plugin
unfolding mpls_parse
mpls =
    probe_less "mpls" mpls_parse (ether_type 0x8847 ∷ ether_type 0x8848 ∷ [])
      (some (qualified_by "label" []))

unfoldable pub esp_parse : List ℕ → ParseCtx → Result ParseError ParsedLayer
unfolding u32_be Bytes.new Value.insert
esp_parse input ctx = do
  (spi, r) ← read (u32_be (Bytes.new input))
  (sequence, r) ← read (u32_be r)
  let spi_field = insert_at ctx keys (("spi", u64 spi) ∷ []) empty in
      ok (record {
        header_len = 8;
        fields = insert_at ctx structural (("sequence", u64 sequence) ∷ []) spi_field;
        hint = terminal;
      })

-- `impl LayerPlugin for Esp`
unfoldable pub esp : Plugin
unfolding esp_parse
esp =
    probe_less "esp" esp_parse (ip_protocol 50 ∷ [])
      (some (qualified_by "spi" (record { field = "sequence"; kind = sample } ∷ [])))
