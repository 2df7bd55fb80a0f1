-- ===== src/Plugins/Tunnel.antt =====
-- VXLAN and NTP over UDP (crates/pktflow-plugins/src/vxlan.rs and ntp.rs).
use pktflow.Prelude.{
  ℕ, ◌+◌, ◌*◌, ◌/◌, ◌%◌, List, [], ◌∷◌, none, some, false, not, ◌==◌, if◌then◌else◌,
}
use pktflow.Prelude.Result.{Result, ok, err, ◌>>=◌}
use pktflow.Prelude.Text.{codes}
use pktflow.Core.Bytes
use pktflow.Core.Bytes.{u8, u32_be, u64_be}
use pktflow.Core.Value
use pktflow.Core.Value.{empty, u64, bytes, str}
use pktflow.Core.Route.{udp_port}
use pktflow.Core.Error.{ParseError}
use pktflow.Core.Stream.{accumulate, sample, endpoint_sort, StreamIdentity}
use pktflow.Core.Plugin.{
  Plugin, ParseCtx, ParsedLayer, by_protocol, terminal, keys, structural, full,
}
use pktflow.Plugins.Tcp.{read, insert_at, bit}

abbrev pub vxlan_identity : StreamIdentity
vxlan_identity = record {
  key = record { a = "vni"; b = none } ∷ [];
  canonicalize = endpoint_sort;
  lifecycle = none;
  rollups = [];
}

-- `fold(0, |acc, b| (acc << 8) | b)`
abbrev pub vni_from : ℕ → List ℕ → ℕ
vni_from acc [] = acc
vni_from acc (b ∷ bs) = vni_from (acc * 256 + b) bs

unfoldable pub vxlan_parse : List ℕ → ParseCtx → Result ParseError ParsedLayer
unfolding u8 Bytes.take Bytes.new Value.insert
vxlan_parse input ctx = do
  (flags, r) ← read (u8 (Bytes.new input))
  if not (bit flags 3) then err (ParseError.malformed "VXLAN I flag not set") else (do
    (reserved1, r) ← read (Bytes.take r 3)
    (vni_bytes, r) ← read (Bytes.take r 3)
    (reserved2, r) ← read (u8 r)
    let vni_field = insert_at ctx keys (("vni", u64 (vni_from 0 vni_bytes)) ∷ []) empty in
        ok (record {
          header_len = 8;
          fields = insert_at ctx structural (("flags", u64 flags) ∷ []) vni_field;
          hint = by_protocol "ethernet";
        }))

-- `impl LayerPlugin for Vxlan`
unfoldable pub vxlan : Plugin
unfolding vxlan_parse
vxlan = record {
  name = "vxlan";
  parse = vxlan_parse;
  claims = udp_port 4789 ∷ [];
  expected_predecessors = [];
  has_probe = false;
  probe = λ input ctx. none;
  stream_identity = some vxlan_identity;
  condense = none;
}

abbrev pub ntp_identity : StreamIdentity
ntp_identity = record {
  key = record { a = "app"; b = none } ∷ [];
  canonicalize = endpoint_sort;
  lifecycle = none;
  rollups =
      record { field = "mode"; kind = accumulate }
      ∷ record { field = "stratum"; kind = sample }
      ∷ [];
}

unfoldable pub ntp_parse : List ℕ → ParseCtx → Result ParseError ParsedLayer
unfolding u8 u32_be u64_be Bytes.take Bytes.new Value.insert
ntp_parse input ctx = do
  (li_vn_mode, r) ← read (u8 (Bytes.new input))
  let mode = li_vn_mode % 8 in
      if mode == 0 then err (ParseError.malformed "reserved NTP mode 0") else (do
        (stratum, r) ← read (u8 r)
        (poll, r) ← read (u8 r)
        (precision, r) ← read (u8 r)
        (root_delay, r) ← read (u32_be r)
        (root_dispersion, r) ← read (u32_be r)
        (ref_id, r) ← read (Bytes.take r 4)
        (ref_ts, r) ← read (u64_be r)
        (orig_ts, r) ← read (u64_be r)
        (recv_ts, r) ← read (u64_be r)
        (xmit_ts, r) ← read (u64_be r)
        let app_field = insert_at ctx keys (("app", str (codes "ntp")) ∷ []) empty in
            let structural_fields =
              insert_at ctx structural
                (("version", u64 (li_vn_mode / 8 % 8))
                  ∷ ("mode", u64 mode)
                  ∷ ("stratum", u64 stratum)
                  ∷ [])
                app_field in
            ok (record {
              header_len = 48;
              fields =
                  insert_at ctx full
                    (("ref_id", bytes ref_id)
                      ∷ ("ref_ts", u64 ref_ts)
                      ∷ ("orig_ts", u64 orig_ts)
                      ∷ ("recv_ts", u64 recv_ts)
                      ∷ ("xmit_ts", u64 xmit_ts)
                      ∷ [])
                    structural_fields;
              hint = terminal;
            }))

-- `impl LayerPlugin for Ntp`
unfoldable pub ntp : Plugin
unfolding ntp_parse
ntp = record {
  name = "ntp";
  parse = ntp_parse;
  claims = udp_port 123 ∷ [];
  expected_predecessors = [];
  has_probe = false;
  probe = λ input ctx. none;
  stream_identity = some ntp_identity;
  condense = none;
}
