-- ===== src/Plugins/Ip.antt =====
-- IPv4 and IPv6 (crates/pktflow-plugins/src/ipv4.rs and ipv6.rs). Shifts and masks are `/` and `%`.
use pktflow.Prelude.{
  ℕ, zero, suc, ◌+◌, ◌-◌, ◌*◌, ◌/◌, ◌%◌, ◌^◌, List, [], ◌∷◌, Option, none, some, Bool, true, ltb,
  leb, ◌==◌, ◌||◌, ◌&&◌, not, if◌then◌else◌, length, take,
}
use pktflow.Prelude.Words.{add32}
use pktflow.Prelude.Result.{Result, ok, err, ◌>>=◌}
use pktflow.Core.Bytes
use pktflow.Core.Bytes.{ByteReader, u8, u16_be, u32_be}
use pktflow.Core.Value
use pktflow.Core.Value.{empty, u64, bytes}
use pktflow.Core.Route.{ether_type, ip_protocol}
use pktflow.Core.Error.{ParseError}
use pktflow.Core.Stream.{KeyField, accumulate, endpoint_sort, StreamIdentity}
use pktflow.Core.Plugin.{
  Plugin, ParseCtx, ParsedLayer, Hint, route, terminal, keys, structural, full, confidence,
}
use pktflow.Plugins.Tcp.{read, insert_at, options_entry, word_at}

abbrev pub addr_pair : KeyField
addr_pair = record { a = "src_addr"; b = some "dst_addr" }

abbrev pub ipv4_identity : StreamIdentity
ipv4_identity = record {
  key = addr_pair ∷ [];
  canonicalize = endpoint_sort;
  lifecycle = none;
  rollups = record { field = "protocol"; kind = accumulate } ∷ [];
}

-- The words of a header, the last one filled up, added as 32-bit numbers.
unfoldable pub sum_words : ℕ → List ℕ → ℕ
sum_words sum [] = sum
sum_words sum (hi ∷ []) = add32 sum (256 * hi)
sum_words sum (hi ∷ lo ∷ rest) = sum_words (add32 sum (256 * hi + lo)) rest

-- The `while` loop, on fuel.
unfoldable pub fold_carries : ℕ → ℕ → ℕ
fold_carries zero sum = sum
fold_carries (suc fuel) sum =
    let rest = fold_carries fuel (sum % 65536 + sum / 65536) in if ltb 0xFFFF sum then rest else sum

-- `internet_checksum`: two rounds take the carries of any 32-bit sum in.
unfoldable pub internet_checksum : List ℕ → ℕ
unfolding sum_words fold_carries
internet_checksum header = 65535 - fold_carries 2 (sum_words 0 header) % 65536

-- A fragment that is not the first carries no transport header.
abbrev pub ip_hint : ℕ → ℕ → Hint
ip_hint frag_offset protocol = if ltb 0 frag_offset then terminal else route (ip_protocol protocol)

unfoldable pub ipv4_parse : List ℕ → ParseCtx → Result ParseError ParsedLayer
unfolding u8 u16_be Bytes.take Bytes.new Value.insert
ipv4_parse input ctx = do
  (ver_ihl, r) ← read (u8 (Bytes.new input))
  if not (ver_ihl / 16 == 4)
      then err (ParseError.malformed "version nibble is not 4")
      else (let ihl = ver_ihl % 16 in
          if ltb ihl 5 then err (ParseError.malformed "IHL below 5") else (do
            (dscp_ecn, r) ← read (u8 r)
            (total_len, r) ← read (u16_be r)
            (id, r) ← read (u16_be r)
            (flags_frag, r) ← read (u16_be r)
            (ttl, r) ← read (u8 r)
            (protocol, r) ← read (u8 r)
            (checksum, r) ← read (u16_be r)
            (src, r) ← read (Bytes.take r 4)
            (dst, r) ← read (Bytes.take r 4)
            (options, r) ← read (Bytes.take r (ihl * 4 - 20))
            let frag_offset = flags_frag % 8192 in
                let addr_fields =
                  insert_at ctx keys (("src_addr", bytes src) ∷ ("dst_addr", bytes dst) ∷ [])
                    empty in
                let structural_fields =
                  insert_at ctx structural
                    (("protocol", u64 protocol)
                      ∷ ("ttl", u64 ttl)
                      ∷ ("total_len", u64 total_len)
                      ∷ ("flags", u64 (flags_frag / 8192))
                      ∷ ("frag_offset", u64 frag_offset)
                      ∷ ("ihl", u64 ihl)
                      ∷ [])
                    addr_fields in
                let fields =
                  insert_at ctx full
                    (("dscp", u64 (dscp_ecn / 4))
                      ∷ ("ecn", u64 (dscp_ecn % 4))
                      ∷ ("id", u64 id)
                      ∷ ("checksum", u64 checksum)
                      ∷ [])
                    structural_fields in
                ok (record {
                  header_len = ihl * 4;
                  fields = insert_at ctx full (options_entry options) fields;
                  hint = ip_hint frag_offset protocol;
                })))

-- The checks of `probe` behind the first byte.
unfoldable pub ipv4_plausible : List ℕ → ℕ → ℕ → Bool
unfolding internet_checksum
ipv4_plausible input header_len total_len =
    leb header_len (length input)
    && leb total_len (length input)
    && leb header_len total_len
    && (internet_checksum (take header_len input) == 0)

unfoldable pub ipv4_probe : List ℕ → ParseCtx → Option ℕ
unfolding ipv4_plausible confidence
ipv4_probe [] ctx = none
ipv4_probe (first ∷ rest) ctx =
    if not (first / 16 == 4) || ltb (first % 16) 5 then none else elim (word_at (first ∷ rest) 2) [
      | none ↦ none
      | some total_len ↦
          if ipv4_plausible (first ∷ rest) (first % 16 * 4) total_len
          then some (confidence 90)
          else none
    ]

-- `impl LayerPlugin for Ipv4`
unfoldable pub ipv4 : Plugin
unfolding ipv4_parse ipv4_probe
ipv4 = record {
  name = "ipv4";
  parse = ipv4_parse;
  claims = ether_type 0x0800 ∷ ip_protocol 4 ∷ [];
  expected_predecessors = [];
  has_probe = true;
  probe = ipv4_probe;
  stream_identity = some ipv4_identity;
  condense = none;
}

abbrev pub ipv6_identity : StreamIdentity
ipv6_identity = record {
  key = addr_pair ∷ [];
  canonicalize = endpoint_sort;
  lifecycle = none;
  rollups = record { field = "next_header"; kind = accumulate } ∷ [];
}

abbrev pub max_ext_headers : ℕ
max_ext_headers = 8

-- The variables of the walk over the extension headers.
pub record ExtChain : Type 0 where
  pub next_header : ℕ
  pub header_len : ℕ
  pub fragment_offset : ℕ
  pub reader : ByteReader

abbrev pub is_extension : ℕ → Bool
is_extension n = (n == 0) || (n == 43) || (n == 44) || (n == 60)

unfoldable pub fragment_header : ExtChain → Result ParseError ExtChain
unfolding u8 u16_be u32_be
fragment_header c = do
  (inner_next, r) ← read (u8 c.reader)
  (reserved, r) ← read (u8 r)
  (offset_flags, r) ← read (u16_be r)
  (identification, r) ← read (u32_be r)
  ok (record {
    next_header = inner_next;
    header_len = c.header_len + 8;
    fragment_offset = offset_flags / 8;
    reader = r;
  })

unfoldable pub options_header : ExtChain → Result ParseError ExtChain
unfolding u8 Bytes.take
options_header c = do
  (inner_next, r) ← read (u8 c.reader)
  (hdr_ext_len, r) ← read (u8 r)
  (body, r) ← read (Bytes.take r ((hdr_ext_len + 1) * 8 - 2))
  ok (record c {
    next_header = inner_next;
    header_len = c.header_len + (hdr_ext_len + 1) * 8;
    reader = r;
  })

-- The loop, with the number of extension headers that it may still take.
unfoldable pub ext_chain : ℕ → ExtChain → Result ParseError ExtChain
unfolding fragment_header options_header
ext_chain zero c =
    if is_extension c.next_header
    then err (ParseError.malformed "extension header chain too long")
    else ok c
ext_chain (suc left) c =
    let rest =
      (if c.next_header == 44 then fragment_header c else options_header c) >>= ext_chain left in
    if is_extension c.next_header then rest else ok c

unfoldable pub ipv6_parse : List ℕ → ParseCtx → Result ParseError ParsedLayer
unfolding u8 u16_be u32_be Bytes.take Bytes.new Value.insert ext_chain
ipv6_parse input ctx = do
  (ver_tc_fl, r) ← read (u32_be (Bytes.new input))
  if not (ver_tc_fl / 2 ^ 28 == 6)
      then err (ParseError.malformed "version nibble is not 6")
      else (do
        (payload_len, r) ← read (u16_be r)
        (next_header, r) ← read (u8 r)
        (hop_limit, r) ← read (u8 r)
        (src, r) ← read (Bytes.take r 16)
        (dst, r) ← read (Bytes.take r 16)
        c ←
            ext_chain max_ext_headers (record {
              next_header = next_header;
              header_len = 40;
              fragment_offset = 0;
              reader = r;
            })
        let addr_fields =
              insert_at ctx keys (("src_addr", bytes src) ∷ ("dst_addr", bytes dst) ∷ []) empty in
            let structural_fields =
              insert_at ctx structural
                (("next_header", u64 c.next_header)
                  ∷ ("hop_limit", u64 hop_limit)
                  ∷ ("payload_len", u64 payload_len)
                  ∷ [])
                addr_fields in
            ok (record {
              header_len = c.header_len;
              fields =
                  insert_at ctx full
                    (("traffic_class", u64 (ver_tc_fl / 2 ^ 20 % 256))
                      ∷ ("flow_label", u64 (ver_tc_fl % 2 ^ 20))
                      ∷ [])
                    structural_fields;
              hint = ip_hint c.fragment_offset c.next_header;
            }))

unfoldable pub ipv6_probe : List ℕ → ParseCtx → Option ℕ
unfolding confidence
ipv6_probe [] ctx = none
ipv6_probe (first ∷ rest) ctx =
    if not (first / 16 == 6) || ltb (length (first ∷ rest)) 40
    then none
    else elim (word_at (first ∷ rest) 4) [
      | none ↦ none
      | some payload_len ↦
          if leb (40 + payload_len) (length (first ∷ rest)) then some (confidence 75) else none
    ]

-- `impl LayerPlugin for Ipv6`
unfoldable pub ipv6 : Plugin
unfolding ipv6_parse ipv6_probe
ipv6 = record {
  name = "ipv6";
  parse = ipv6_parse;
  claims = ether_type 0x86DD ∷ ip_protocol 41 ∷ [];
  expected_predecessors = [];
  has_probe = true;
  probe = ipv6_probe;
  stream_identity = some ipv6_identity;
  condense = none;
}
