-- ===== src/Tests/Plugins.antt =====
-- Examples for the protocol plugins.
use pktflow.Prelude.{
  ℕ, List, length, arith, ◌≤◌, [], ◌∷◌, ◌++◌, ◌≡◌, refl, String-discrete, Bool-cases,
}
use pktflow.Prelude.Result.{ok}
use pktflow.Core.Bytes
use pktflow.Core.Bytes.{u8, u16_be, u32_be}
use pktflow.Core.Bytes.Endian.{from_be}
use pktflow.Core.Value
use pktflow.Core.Value.{FieldMap, u64, bytes}
use pktflow.Core.Stream.{a_to_b}
use pktflow.Core.Route.{udp_port, ip_protocol}
use pktflow.Core.Plugin.{ParsedLayer, terminal, candidates, route}
use pktflow.Plugins.Tcp.{tcp_advance, tcp_parse}
use pktflow.Plugins.Udp.{udp_parse}
use pktflow.Plugins.Headers.{tcp_parse-header_len}
use pktflow.Plugins.Within.{header_len-modelled}
use pktflow.Plugins.Ip.{
  ipv6, ipv6_parse, ext_chain, options_header, internet_checksum, sum_words, fold_carries,
}
use pktflow.Tests.{context_at_start}
use pktflow.Plugins.Tcp.Lifecycle.{tcp_advance-stage, stage}

-- The fields of a first packet, whose only flag is SYN.
abbrev syn_fields : FieldMap
syn_fields = record { entries = ("flags", u64 2) ∷ [] }

syn_fields-tcp_advance : tcp_advance syn_fields "new" a_to_b ≡ "syn_sent"
unfolding tcp_advance Value.get String-discrete Bool-cases
syn_fields-tcp_advance = refl

tcp_advance-stage_example : stage "new" ≤ stage (tcp_advance syn_fields "new" a_to_b)
tcp_advance-stage_example = tcp_advance-stage syn_fields "new" a_to_b

-- A SYN from port 5000 to port 80, without payload.
abbrev segment : List ℕ
segment = 19 ∷ 136 ∷ 0 ∷ 80 ∷ 0 ∷ 0 ∷ 0 ∷ 7 ∷ 0 ∷ 0 ∷ 0 ∷ 0 ∷ 80 ∷ 2 ∷ 1 ∷ 0 ∷ 0 ∷ 9 ∷ 0 ∷ 0 ∷ []

abbrev segment_layer : ParsedLayer
segment_layer = record {
  header_len = 20;
  fields = record {
    entries =
        ("src_port", u64 5000)
        ∷ ("dst_port", u64 80)
        ∷ ("flags", u64 2)
        ∷ ("seq", u64 7)
        ∷ ("ack", u64 0)
        ∷ ("window", u64 256)
        ∷ ("data_offset", u64 5)
        ∷ ("checksum", u64 9)
        ∷ ("urgent", u64 0)
        ∷ [];
  };
  hint = terminal;
}

segment-tcp_parse : tcp_parse segment context_at_start ≡ ok segment_layer
unfolding tcp_parse u16_be u32_be Bytes.array Bytes.take Bytes.new Value.insert String-discrete
    Bool-cases from_be
segment-tcp_parse = refl

tcp_parse-header_len_example :
    (20 ≤ segment_layer.header_len) × (segment_layer.header_len ≤ length segment)
tcp_parse-header_len_example =
    tcp_parse-header_len segment context_at_start segment_layer (omega arith) segment-tcp_parse

abbrev datagram : List ℕ
datagram = 19 ∷ 136 ∷ 0 ∷ 53 ∷ 0 ∷ 9 ∷ 0 ∷ 1 ∷ 255 ∷ []

abbrev datagram_layer : ParsedLayer
datagram_layer = record {
  header_len = 8;
  fields = record {
    entries =
        ("src_port", u64 5000)
        ∷ ("dst_port", u64 53)
        ∷ ("length", u64 9)
        ∷ ("checksum", u64 1)
        ∷ [];
  };
  hint = candidates (udp_port 53 ∷ udp_port 5000 ∷ []);
}

datagram-udp_parse : udp_parse datagram context_at_start ≡ ok datagram_layer
unfolding udp_parse u16_be Bytes.array Bytes.take Bytes.new Value.insert String-discrete Bool-cases
    from_be
datagram-udp_parse = refl

abbrev zero_address : List ℕ
zero_address = 0 ∷ 0 ∷ 0 ∷ 0 ∷ 0 ∷ 0 ∷ 0 ∷ 0 ∷ 0 ∷ 0 ∷ 0 ∷ 0 ∷ 0 ∷ 0 ∷ 0 ∷ 0 ∷ []

-- An IPv6 header with one extension header, behind which nothing follows.
abbrev extended : List ℕ
extended =
    0x60 ∷ 0 ∷ 0 ∷ 0 ∷ 0 ∷ 8 ∷ 0 ∷ 64 ∷ zero_address
    ++ zero_address
    ++ 59 ∷ 0 ∷ 0 ∷ 0 ∷ 0 ∷ 0 ∷ 0 ∷ 0 ∷ []

abbrev extended_layer : ParsedLayer
extended_layer = record {
  header_len = 48;
  fields = record {
    entries =
        ("src_addr", bytes zero_address)
        ∷ ("dst_addr", bytes zero_address)
        ∷ ("next_header", u64 59)
        ∷ ("hop_limit", u64 64)
        ∷ ("payload_len", u64 8)
        ∷ ("traffic_class", u64 0)
        ∷ ("flow_label", u64 0)
        ∷ [];
  };
  hint = route (ip_protocol 59);
}

extended-ipv6_parse : ipv6.parse extended context_at_start ≡ ok extended_layer
unfolding ipv6 ipv6_parse ext_chain options_header u8 u16_be u32_be Bytes.array Bytes.take Bytes.new
    Value.insert String-discrete Bool-cases from_be
extended-ipv6_parse = refl

header_len-modelled_example : extended_layer.header_len ≤ length extended
header_len-modelled_example =
    header_len-modelled 4 ipv6 extended context_at_start extended_layer refl (omega arith)
      extended-ipv6_parse

-- The header of the test in ipv4.rs, whose checksum is right.
abbrev valid_header : List ℕ
valid_header =
    0x45 ∷ 0 ∷ 0 ∷ 60 ∷ 0x1C ∷ 0x46 ∷ 0x40 ∷ 0 ∷ 0x40 ∷ 6 ∷ 0x0A ∷ 0x74 ∷ 10 ∷ 0 ∷ 0 ∷ 1 ∷ 10 ∷ 0
    ∷ 0 ∷ 2 ∷ []

valid_header-internet_checksum : internet_checksum valid_header ≡ 0
unfolding internet_checksum sum_words fold_carries
valid_header-internet_checksum = refl
