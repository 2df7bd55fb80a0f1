-- ===== src/Plugins/Icmp.antt =====
-- ICMPv4, ICMPv6 and IGMP (crates/pktflow-plugins/src/icmpv4.rs, icmpv6.rs and igmp.rs).
use pktflow.Prelude.{
  String, ℕ, List, [], ◌∷◌, none, Bool, false, leb, ◌==◌, ◌||◌, ◌&&◌, if◌then◌else◌,
}
use pktflow.Prelude.Result.{Result, ok, ◌>>=◌}
use pktflow.Core.Bytes
use pktflow.Core.Bytes.{u8, u16_be}
use pktflow.Core.Value
use pktflow.Core.Value.{empty, u64, bytes}
use pktflow.Core.Route.{RouteId, ip_protocol, custom}
use pktflow.Core.Error.{ParseError}
use pktflow.Core.Plugin.{Plugin, ParseCtx, ParsedLayer, route, terminal, structural, full}
use pktflow.Plugins.Tcp.{read, insert_at}

unfoldable pub icmpv4_parse : List ℕ → ParseCtx → Result ParseError ParsedLayer
unfolding u8 u16_be Bytes.take Bytes.new Value.insert
icmpv4_parse input ctx = do
  (icmp_type, r) ← read (u8 (Bytes.new input))
  (code, r) ← read (u8 r)
  (checksum, r) ← read (u16_be r)
  (header_rest, r) ← read (Bytes.take r 4)
  let structural_fields =
        insert_at ctx structural (("type", u64 icmp_type) ∷ ("code", u64 code) ∷ []) empty in
      ok (record {
        header_len = 8;
        fields = insert_at ctx full (("rest_of_header", bytes header_rest) ∷ []) structural_fields;
        hint = terminal;
      })

-- A plugin without a probe and without streams of its own.
abbrev pub identity_less :
    String → (List ℕ → ParseCtx → Result ParseError ParsedLayer) → List RouteId → Plugin
identity_less name parse claims = record {
  name = name;
  parse = parse;
  claims = claims;
  expected_predecessors = [];
  has_probe = false;
  probe = λ input ctx. none;
  stream_identity = none;
  condense = none;
}

-- `impl LayerPlugin for Icmpv4`
unfoldable pub icmpv4 : Plugin
unfolding icmpv4_parse
icmpv4 = identity_less "icmpv4" icmpv4_parse (ip_protocol 1 ∷ [])

-- The types of Neighbor Discovery, 133 to 137, and of MLD, 130 to 132 and 143.
abbrev pub is_dispatched : ℕ → Bool
is_dispatched icmp_type = (leb 130 icmp_type && leb icmp_type 137) || (icmp_type == 143)

unfoldable pub icmpv6_parse : List ℕ → ParseCtx → Result ParseError ParsedLayer
unfolding u8 u16_be Bytes.take Bytes.new Value.insert
icmpv6_parse input ctx = do
  (icmp_type, r) ← read (u8 (Bytes.new input))
  (code, r) ← read (u8 r)
  (checksum, r) ← read (u16_be r)
  (header_rest, r) ← read (Bytes.take r 4)
  ok (record {
    header_len = 8;
    fields =
        insert_at ctx structural
          (("type", u64 icmp_type)
            ∷ ("code", u64 code)
            ∷ ("rest_of_header", bytes header_rest)
            ∷ [])
          empty;
    hint = if is_dispatched icmp_type then route (custom "icmpv6_type" icmp_type) else terminal;
  })

-- `impl LayerPlugin for Icmpv6`
unfoldable pub icmpv6 : Plugin
unfolding icmpv6_parse
icmpv6 = identity_less "icmpv6" icmpv6_parse (ip_protocol 58 ∷ [])

unfoldable pub igmp_parse : List ℕ → ParseCtx → Result ParseError ParsedLayer
unfolding u8 u16_be Bytes.take Bytes.new Value.insert
igmp_parse input ctx = do
  (igmp_type, r) ← read (u8 (Bytes.new input))
  (max_resp, r) ← read (u8 r)
  (checksum, r) ← read (u16_be r)
  (group, r) ← read (Bytes.take r 4)
  ok (record {
    header_len = 8;
    fields =
        insert_at ctx structural
          (("type", u64 igmp_type) ∷ ("max_resp", u64 max_resp) ∷ ("group_addr", bytes group) ∷ [])
          empty;
    hint = terminal;
  })

-- `impl LayerPlugin for Igmp`
unfoldable pub igmp : Plugin
unfolding igmp_parse
igmp = identity_less "igmp" igmp_parse (ip_protocol 2 ∷ [])
