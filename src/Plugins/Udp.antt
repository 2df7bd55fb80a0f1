-- ===== src/Plugins/Udp.antt =====
-- UDP (crates/pktflow-plugins/src/udp.rs).
use pktflow.Prelude.{ℕ, List, [], ◌∷◌, none, some, false}
use pktflow.Prelude.Result.{Result, ok, ◌>>=◌}
use pktflow.Core.Bytes
use pktflow.Core.Bytes.{u16_be}
use pktflow.Core.Value
use pktflow.Core.Value.{empty, u64}
use pktflow.Core.Route.{udp_port, ip_protocol}
use pktflow.Core.Error.{ParseError}
use pktflow.Core.Stream.{sample, endpoint_sort, StreamIdentity}
use pktflow.Core.Plugin.{Plugin, ParseCtx, ParsedLayer, candidates, keys, structural, full}
use pktflow.Plugins.Tcp.{port_pair, read, insert_at}

abbrev pub udp_identity : StreamIdentity
udp_identity = record {
  key = port_pair ∷ [];
  canonicalize = endpoint_sort;
  lifecycle = none;
  rollups = record { field = "length"; kind = sample } ∷ [];
}

-- The `parse` of the plugin
unfoldable pub udp_parse : List ℕ → ParseCtx → Result ParseError ParsedLayer
unfolding u16_be Bytes.new Value.insert
udp_parse input ctx = do
  (src_port, r) ← read (u16_be (Bytes.new input))
  (dst_port, r) ← read (u16_be r)
  (length, r) ← read (u16_be r)
  (checksum, r) ← read (u16_be r)
  let port_fields =
        insert_at ctx keys (("src_port", u64 src_port) ∷ ("dst_port", u64 dst_port) ∷ []) empty in
      let structural_fields = insert_at ctx structural (("length", u64 length) ∷ []) port_fields in
      ok (record {
        header_len = 8;
        fields = insert_at ctx full (("checksum", u64 checksum) ∷ []) structural_fields;
        hint = candidates (udp_port dst_port ∷ udp_port src_port ∷ []);
      })

-- `impl LayerPlugin for Udp`, which has no probe.
unfoldable pub udp : Plugin
unfolding udp_parse
udp = record {
  name = "udp";
  parse = udp_parse;
  claims = ip_protocol 17 ∷ [];
  expected_predecessors = [];
  has_probe = false;
  probe = λ input ctx. none;
  stream_identity = some udp_identity;
  condense = some (record { ephemeral = port_pair });
}
