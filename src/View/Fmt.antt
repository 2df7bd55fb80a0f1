-- ===== src/View/Fmt.antt =====
-- Rendering of values (crates/pktflow-view/src/fmt.rs). `register_route_resolver` is the parameter
-- `resolver`, and `str::to_uppercase` is the parameter `to_uppercase`.
use pktflow.Prelude.{
  ℕ, zero, suc, ◌+◌, ◌-◌, ◌*◌, ◌/◌, ◌%◌, ◌^◌, List, [], ◌∷◌, ◌++◌, Bool, true, false, ◌&&◌, ◌||◌,
  Option, none, some, length, take, drop, map, ltb, leb, ◌==◌, ◌≟◌, string_eq, bytes_eq,
  if◌then◌else◌, get_elem?,
}
use pktflow.Prelude.Int.{ℤ, pos, negsuc}
use pktflow.Prelude.Text.{Text, codes, ends_with, join, decimal, hex, padded}
use pktflow.Core.Value.{Value, Values, bytes, u64, i64, bool, str, list, nil, cons, FieldName}
use pktflow.Core.Route.{RouteId, link_type, ether_type, ip_protocol, udp_port, tcp_port, custom}
use pktflow.Core.Packet.{ProtocolName}

-- `get_u64`
abbrev pub get_u64 : Value → Option ℕ
get_u64 (u64 v) = some v
get_u64 (i64 (pos v)) = some v
get_u64 v = none

abbrev pub bounded : ℕ → ℕ → (ℕ → RouteId) → Option RouteId → Option RouteId
bounded bits val route otherwise = if ltb val (2 ^ bits) then some (route val) else otherwise

abbrev pub is_port : FieldName → Bool
is_port name = (name ≟ "src_port") || (name ≟ "dst_port") || (name ≟ "port")

-- The last two entries of the table.
unfoldable pub resolve_custom : ProtocolName → FieldName → ℕ → Option RouteId
resolve_custom protocol name val =
    if (protocol ≟ "llc") && ((name ≟ "dsap") || (name ≟ "ssap"))
    then some (custom "llc_dsap" val)
    else if (protocol ≟ "icmpv6") && (name ≟ "type")
    then some (custom "icmpv6_type" val)
    else none

unfoldable pub resolve_port : ProtocolName → FieldName → ℕ → Option RouteId
unfolding resolve_custom
resolve_port protocol name val =
    let tcp =
      if (protocol ≟ "tcp") && is_port name
      then bounded 16 val tcp_port (resolve_custom protocol name val)
      else resolve_custom protocol name val in
    if (protocol ≟ "udp") && is_port name then bounded 16 val udp_port tcp else tcp

-- `resolve_field_route_id`: a value out of range goes on to the next entry.
unfoldable pub resolve_field_route_id : ProtocolName → FieldName → ℕ → Option RouteId
unfolding resolve_port
resolve_field_route_id protocol name val =
    let ip =
      if (name ≟ "next_header") || ((protocol ≟ "ipv4") && (name ≟ "protocol"))
      then bounded 8 val ip_protocol (resolve_port protocol name val)
      else resolve_port protocol name val in
    if (name ≟ "ethertype")
      || ((protocol ≟ "gre") && (name ≟ "protocol"))
      || ((protocol ≟ "llc") && (name ≟ "pid"))
    then bounded 16 val ether_type ip
    else ip

-- `tcp_flags_str`: the names, each with its bit, ACK last.
abbrev pub flag_names : List (ℕ × Text)
flag_names =
    (1, codes "SYN")
    ∷ (0, codes "FIN")
    ∷ (2, codes "RST")
    ∷ (3, codes "PSH")
    ∷ (5, codes "URG")
    ∷ (6, codes "ECE")
    ∷ (7, codes "CWR")
    ∷ (4, codes "ACK")
    ∷ []

unfoldable pub set_flags : ℕ → List (ℕ × Text) → List Text
set_flags bits [] = []
set_flags bits ((k, name) ∷ rest) =
    if bits / 2 ^ k % 2 == 1 then name ∷ set_flags bits rest else set_flags bits rest

unfoldable pub tcp_flags_str : ℕ → Text
unfolding set_flags
tcp_flags_str bits = elim (set_flags bits flag_names) [
  | [] ↦ codes "none"
  | t ∷ ts ↦ join (codes "+") (t ∷ ts)
]

abbrev pub hex_byte : ℕ → Text
hex_byte b = padded 2 (hex b)

abbrev pub ellipsis : Text
ellipsis = 0xE2 ∷ 0x80 ∷ 0xA6 ∷ []

-- The groups of an IPv6 address.
abbrev pub groups_of : List ℕ → List ℕ
groups_of (hi ∷ lo ∷ rest) = (256 * hi + lo) ∷ groups_of rest
groups_of rest = []

-- The number of leading zero groups.
abbrev pub zero_run : List ℕ → ℕ
zero_run [] = 0
zero_run (g ∷ gs) = let later = suc (zero_run gs) in if g == 0 then later else 0

abbrev pub longer : ℕ → Option (ℕ × ℕ) → Bool
longer len none = true
longer len (some (start, best_len)) = ltb best_len len

-- The loop over the groups from index `i` on, `skip` of which belong to the run before.
unfoldable pub best_run : ℕ → ℕ → List ℕ → Option (ℕ × ℕ) → Option (ℕ × ℕ)
best_run i skip [] best = best
best_run i (suc skip) (g ∷ gs) best = best_run (i + 1) skip gs best
best_run i zero (g ∷ gs) best =
    let len = zero_run (g ∷ gs) in
    best_run (i + 1) (len - 1) gs (if leb 2 len && longer len best then some (i, len) else best)

abbrev pub hex_groups : List ℕ → Text
hex_groups gs = join (codes ":") (map hex gs)

abbrev pub dotted : List ℕ → Text
dotted b = join (codes ".") (map decimal b)

abbrev pub all_zero : List ℕ → Bool
all_zero [] = true
all_zero (g ∷ gs) = (g == 0) && all_zero gs

abbrev pub is_mapped : List ℕ → Bool
is_mapped groups =
    all_zero (take 5 groups) && (elim (get_elem? groups 5) [ none ↦ false | some g ↦ g == 0xffff ])

-- `ipv6_compressed_str`
unfoldable pub ipv6_compressed_str : List ℕ → Text
unfolding best_run hex decimal
ipv6_compressed_str b =
    let groups = groups_of b in
    if is_mapped groups
    then codes "::ffff:" ++ dotted (drop 12 b)
    else elim (best_run 0 0 groups none) [
      | some (start, len) ↦
          hex_groups (take start groups) ++ codes "::" ++ hex_groups (drop (start + len) groups)
      | none ↦ hex_groups groups
    ]

-- `bytes_str`
unfoldable pub bytes_str : FieldName → List ℕ → Text
unfolding ipv6_compressed_str ends_with hex decimal
bytes_str name b =
    let n = codes name in
    let addr_like = ends_with n (codes "_addr") || ends_with n (codes "_ip") in
    if (length b == 4) && addr_like
    then dotted b
    else if (length b == 16) && addr_like
    then ipv6_compressed_str b
    else if length b == 6
    then join (codes ":") (map hex_byte b)
    else join [] (map hex_byte (take 32 b)) ++ (if ltb 32 (length b) then ellipsis else [])

abbrev pub integer_str : ℤ → Text
integer_str (pos n) = decimal n
integer_str (negsuc n) = b'-' ∷ decimal (suc n)

unfoldable mutual
  unfolding bytes_str decimal

  -- `value_str`
  pub value_str : FieldName → Value → Text
  value_str name (bytes b) = bytes_str name b
  value_str name (u64 v) = decimal v
  value_str name (i64 v) = integer_str v
  value_str name (bool true) = codes "true"
  value_str name (bool false) = codes "false"
  value_str name (str s) = s
  value_str name (list items) = join (codes ",") (value_strs name items)

  pub value_strs : FieldName → Values → List Text
  value_strs name nil = []
  value_strs name (cons v vs) = value_str name v ∷ value_strs name vs

-- `thousands`: the digits from index `i` on, of `len`.
unfoldable pub separated : ℕ → ℕ → Text → Text
separated len i [] = []
separated len i (c ∷ cs) =
    if ltb 0 i && ((len - i) % 3 == 0)
    then b',' ∷ c ∷ separated len (i + 1) cs
    else c ∷ separated len (i + 1) cs

unfoldable pub thousands : ℕ → Text
unfolding separated decimal
thousands n = separated (length (decimal n)) 0 (decimal n)

-- `human_duration`, of a number of seconds.
unfoldable pub human_duration : ℕ → Text
unfolding decimal
human_duration s = join (codes ":") (
    padded 2 (decimal (s / 3600))
    ∷ padded 2 (decimal (s / 60 % 60))
    ∷ padded 2 (decimal (s % 60))
    ∷ [])

-- `fields_str`
unfoldable pub fields_str : List (FieldName × Value) → List Text
unfolding value_str
fields_str [] = []
fields_str ((name, value) ∷ rest) = (codes name ++ b'=' ∷ value_str name value) ∷ fields_str rest

-- A line of `hex_dump_lines`, and the lines from an offset on, on fuel for each line.
abbrev pub dump_line : ℕ → List ℕ → Text
dump_line offset chunk =
    padded 4 (hex offset) ++ codes "  " ++ join (codes " ") (map hex_byte chunk)

unfoldable pub dump_lines : ℕ → ℕ → List ℕ → List Text
unfolding hex
dump_lines fuel offset [] = []
dump_lines zero offset (b ∷ bs) = []
dump_lines (suc fuel) offset (b ∷ bs) =
    dump_line offset (take 16 (b ∷ bs)) ∷ dump_lines fuel (offset + 16) (drop 16 (b ∷ bs))

-- `hex_dump_lines`
unfoldable pub hex_dump_lines : List ℕ → List Text
unfolding dump_lines
hex_dump_lines input = dump_lines (length input) 0 input

module _ (resolver : RouteId → Option Text) (to_uppercase : Text → Text) where
  -- `format_protocol_display_name`
  unfoldable pub format_protocol_display_name : Text → Text
  format_protocol_display_name name =
      if name ≟ codes "ipv4"
      then codes "IPv4"
      else if name ≟ codes "ipv6"
      then codes "IPv6"
      else if name ≟ codes "icmpv4"
      then codes "ICMPv4"
      else if name ≟ codes "icmpv6"
      then codes "ICMPv6"
      else if name ≟ codes "dhcpv6"
      then codes "DHCPv6"
      else if name ≟ codes "bacnet_ip"
      then codes "BACnet/IP"
      else if name ≟ codes "pvst_plus"
      then codes "PVST+"
      else if name ≟ codes "netflow9"
      then codes "NetFlow 9"
      else to_uppercase name

  -- The number of a route as it is shown; `format_unresolved_value`.
  unfoldable pub format_unresolved_value : RouteId → Text
  unfolding hex decimal
  format_unresolved_value (ether_type v) = codes "0x" ++ padded 4 (hex v)
  format_unresolved_value (custom space id) =
      if space ≟ "snap_pid"
      then codes "0x" ++ padded 4 (hex id)
      else if space ≟ "llc_dsap"
      then codes "0x" ++ padded 2 (hex id)
      else decimal id
  format_unresolved_value (ip_protocol v) = decimal v
  format_unresolved_value (udp_port v) = decimal v
  format_unresolved_value (tcp_port v) = decimal v
  format_unresolved_value (link_type v) = decimal v

  -- `format_resolved_value` shows the same number behind the name, in brackets.
  unfoldable pub format_resolved_value : RouteId → Text → Text
  unfolding format_protocol_display_name format_unresolved_value
  format_resolved_value route name =
      format_protocol_display_name name ++ codes " (" ++ format_unresolved_value route ++ codes ")"

  unfoldable pub route_str : RouteId → Text
  unfolding format_resolved_value format_unresolved_value
  route_str route = elim (resolver route) [
    | some name ↦ format_resolved_value route name
    | none ↦ format_unresolved_value route
  ]

  unfoldable pub numbered_str : ProtocolName → FieldName → Value → Text
  unfolding value_str resolve_field_route_id route_str
  numbered_str protocol name value = elim (get_u64 value) [
    | none ↦ value_str name value
    | some val ↦ elim (resolve_field_route_id protocol name val) [
      | none ↦ value_str name value
      | some route ↦ route_str route
    ]
  ]

  -- `field_value_str`
  unfoldable pub field_value_str : ProtocolName → FieldName → Value → Text
  unfolding numbered_str tcp_flags_str
  field_value_str protocol name (u64 flags) =
      if (protocol ≟ "tcp") && (name ≟ "flags")
      then tcp_flags_str flags
      else numbered_str protocol name (u64 flags)
  field_value_str protocol name value = numbered_str protocol name value
