-- ===== src/Plugins/Link.antt =====
-- The plugins of the link layer: Ethernet II, 802.1Q and ARP (crates/pktflow-plugins/src/ethernet.rs,
-- vlan.rs and arp.rs). Shifts and masks are `/` and `%`.
use pktflow.Prelude.{
  ℕ, ◌+◌, ◌*◌, ◌/◌, ◌%◌, List, [], ◌∷◌, none, some, false, leb, ◌==◌, ◌||◌, if◌then◌else◌,
}
use pktflow.Prelude.Result.{Result, ok, err, ◌>>=◌}
use pktflow.Core.Bytes
use pktflow.Core.Bytes.{u8, u16_be}
use pktflow.Core.Value
use pktflow.Core.Value.{empty, u64, bytes, bool}
use pktflow.Core.Route.{ether_type, link_type, custom}
use pktflow.Core.Error.{ParseError}
use pktflow.Core.Stream.{accumulate, endpoint_sort, StreamIdentity}
use pktflow.Core.Plugin.{Plugin, ParseCtx, ParsedLayer, Hint, route, terminal, keys, structural}
use pktflow.Plugins.Tcp.{read, insert_at}

abbrev pub ethernet_identity : StreamIdentity
ethernet_identity = record {
  key = record { a = "src_mac"; b = some "dst_mac" } ∷ [];
  canonicalize = endpoint_sort;
  lifecycle = none;
  rollups = record { field = "ethertype"; kind = accumulate } ∷ [];
}

abbrev pub min_ethertype : ℕ
min_ethertype = 0x0600

-- A length in the place of the EtherType leads to LLC.
abbrev pub ethernet_hint : ℕ → Hint
ethernet_hint ethertype =
    if leb min_ethertype ethertype
    then route (ether_type ethertype)
    else route (custom "eth_llc_frame" 0)

unfoldable pub ethernet_parse : List ℕ → ParseCtx → Result ParseError ParsedLayer
unfolding u16_be Bytes.take Bytes.new Value.insert
ethernet_parse input ctx = do
  (dst, r) ← read (Bytes.take (Bytes.new input) 6)
  (src, r) ← read (Bytes.take r 6)
  (ethertype, r) ← read (u16_be r)
  let mac_fields =
        insert_at ctx keys (("src_mac", bytes src) ∷ ("dst_mac", bytes dst) ∷ []) empty in
      ok (record {
        header_len = 14;
        fields = insert_at ctx structural (("ethertype", u64 ethertype) ∷ []) mac_fields;
        hint = ethernet_hint ethertype;
      })

-- `impl LayerPlugin for Ethernet`, which has no probe.
unfoldable pub ethernet : Plugin
unfolding ethernet_parse
ethernet = record {
  name = "ethernet";
  parse = ethernet_parse;
  claims = link_type 1 ∷ [];
  expected_predecessors = [];
  has_probe = false;
  probe = λ input ctx. none;
  stream_identity = some ethernet_identity;
  condense = none;
}

unfoldable pub vlan_parse : List ℕ → ParseCtx → Result ParseError ParsedLayer
unfolding u16_be Bytes.new Value.insert
vlan_parse input ctx = do
  (tci, r) ← read (u16_be (Bytes.new input))
  (inner_ethertype, r) ← read (u16_be r)
  let id_field = insert_at ctx keys (("vlan_id", u64 (tci % 4096)) ∷ []) empty in
      ok (record {
        header_len = 4;
        fields =
            insert_at ctx structural
              (("pcp", u64 (tci / 8192))
                ∷ ("dei", bool (tci / 4096 % 2 == 1))
                ∷ ("ethertype", u64 inner_ethertype)
                ∷ [])
              id_field;
        hint = route (ether_type inner_ethertype);
      })

-- `impl LayerPlugin for Vlan`
unfoldable pub vlan : Plugin
unfolding vlan_parse
vlan = record {
  name = "vlan";
  parse = vlan_parse;
  claims = ether_type 0x8100 ∷ ether_type 0x88A8 ∷ [];
  expected_predecessors = [];
  has_probe = false;
  probe = λ input ctx. none;
  stream_identity = none;
  condense = none;
}

unfoldable pub arp_parse : List ℕ → ParseCtx → Result ParseError ParsedLayer
unfolding u8 u16_be Bytes.take Bytes.new Value.insert
arp_parse input ctx = do
  (htype, r) ← read (u16_be (Bytes.new input))
  (ptype, r) ← read (u16_be r)
  (hlen, r) ← read (u8 r)
  (plen, r) ← read (u8 r)
  if (hlen == 0) || (plen == 0) then err (ParseError.malformed "zero address length") else (do
    (opcode, r) ← read (u16_be r)
    (sender_mac, r) ← read (Bytes.take r hlen)
    (sender_ip, r) ← read (Bytes.take r plen)
    (target_mac, r) ← read (Bytes.take r hlen)
    (target_ip, r) ← read (Bytes.take r plen)
    ok (record {
      header_len = 8 + 2 * (hlen + plen);
      fields =
          insert_at ctx structural
            (("opcode", u64 opcode)
              ∷ ("sender_mac", bytes sender_mac)
              ∷ ("sender_ip", bytes sender_ip)
              ∷ ("target_mac", bytes target_mac)
              ∷ ("target_ip", bytes target_ip)
              ∷ [])
            empty;
      hint = terminal;
    }))

-- `impl LayerPlugin for Arp`
unfoldable pub arp : Plugin
unfolding arp_parse
arp = record {
  name = "arp";
  parse = arp_parse;
  claims = ether_type 0x0806 ∷ [];
  expected_predecessors = [];
  has_probe = false;
  probe = λ input ctx. none;
  stream_identity = none;
  condense = none;
}
