-- ===== src/Plugins/Within.antt =====
-- The header lengths of the plugins that are modelled (crates/pktflow-plugins/src).
use pktflow.Prelude.{
  ℕ, zero, suc, ◌+◌, ◌*◌, ◌/◌, ◌%◌, ltb, ◌-◌, ◌^◌, ◌≤◌, ◌<◌, ◌≡◌, refl, subst, false, not, ◌==◌,
  ◌||◌, List, [], ◌∷◌, length, arith, get_elem?, some,
}
use pktflow.Prelude.Result.{ok}
use pktflow.Core.Bytes
use pktflow.Core.Bytes.{ByteReader, u8, u16_be, u32_be, u64_be}
use pktflow.Core.Error.{ParseError}
use pktflow.Core.Plugin.{Plugin, ParseCtx, ParsedLayer}
use pktflow.Plugins.Tcp.{tcp, bit}
use pktflow.Plugins.Udp.{udp, udp_parse}
use pktflow.Plugins.Link.{ethernet, vlan, arp, ethernet_parse, vlan_parse, arp_parse}
use pktflow.Plugins.Ip.{ipv4, ipv6, ipv4_parse, ipv6_parse}
use pktflow.Plugins.Icmp.{icmpv4, icmpv6, igmp, icmpv4_parse, icmpv6_parse, igmp_parse}
use pktflow.Plugins.Tunnel.{vxlan, ntp, vxlan_parse, ntp_parse}
use pktflow.Plugins.Headers.{
  new-At, behind_u16, behind_u32, behind_options, guard_passed, tcp_parse-header_len,
  udp_parse-header_len,
}
use pktflow.Plugins.Encapsulation.{gre, ppp, mpls, esp}
use pktflow.Plugins.Wrapped.{gre_parse-le, ppp_parse-le, mpls_parse-le, esp_parse-le}
use pktflow.Plugins.Extensions.{behind_u8, behind_u64, header_inside, behind_chain}

filled : (ihl : ℕ) → ltb ihl 5 ≡ false → ihl * 4 ≡ 20 + (ihl * 4 - 20)
filled ihl long = let enough : 5 ≤ ihl = ground (arith, long) in omega arith

module _ (input : List ℕ) (ctx : ParseCtx) (layer : ParsedLayer)
    (sized : length input < 2 ^ 64) where
  ethernet_parse-le : ethernet_parse input ctx ≡ ok layer → layer.header_len ≤ length input
  unfolding ethernet_parse
  ethernet_parse-le h =
      behind_options input 0 6 (Bytes.new input) _ layer (new-At input sized) h (λ dst r a h.
        behind_options input 6 6 r _ layer a h (λ src r a h.
          behind_u16 input 12 r _ layer a h
            (λ ethertype r a h. header_inside input 14 r _ layer a refl h)))

  vlan_parse-le : vlan_parse input ctx ≡ ok layer → layer.header_len ≤ length input
  unfolding vlan_parse
  vlan_parse-le h =
      behind_u16 input 0 (Bytes.new input) _ layer (new-At input sized) h (λ tci r a h.
        behind_u16 input 2 r _ layer a h (λ inner r a h. header_inside input 4 r _ layer a refl h))

  arp_parse-le : arp_parse input ctx ≡ ok layer → layer.header_len ≤ length input
  unfolding arp_parse
  arp_parse-le h =
      behind_u16 input 0 (Bytes.new input) _ layer (new-At input sized) h (λ htype r a h.
        behind_u16 input 2 r _ layer a h (λ ptype r a h.
          behind_u8 input 4 r _ layer a h (λ hlen r a h.
            behind_u8 input 5 r _ layer a h (λ plen r a h.
              guard_passed ((hlen == 0) || (plen == 0)) _ _ layer h (λ nonzero h.
                behind_u16 input 6 r _ layer a h (λ opcode r a h.
                  behind_options input 8 hlen r _ layer a h (λ sender_mac r a h.
                    behind_options input _ plen r _ layer a h (λ sender_ip r a h.
                      behind_options input _ hlen r _ layer a h (λ target_mac r a h.
                        behind_options input _ plen r _ layer a h (λ target_ip r a h.
                          header_inside input _ r _ layer a (omega arith) h))))))))))

  icmpv4_parse-le : icmpv4_parse input ctx ≡ ok layer → layer.header_len ≤ length input
  unfolding icmpv4_parse
  icmpv4_parse-le h =
      behind_u8 input 0 (Bytes.new input) _ layer (new-At input sized) h (λ kind r a h.
        behind_u8 input 1 r _ layer a h (λ code r a h.
          behind_u16 input 2 r _ layer a h (λ checksum r a h.
            behind_options input 4 4 r _ layer a h
              (λ header_rest r a h. header_inside input 8 r _ layer a refl h))))

  icmpv6_parse-le : icmpv6_parse input ctx ≡ ok layer → layer.header_len ≤ length input
  unfolding icmpv6_parse
  icmpv6_parse-le h =
      behind_u8 input 0 (Bytes.new input) _ layer (new-At input sized) h (λ kind r a h.
        behind_u8 input 1 r _ layer a h (λ code r a h.
          behind_u16 input 2 r _ layer a h (λ checksum r a h.
            behind_options input 4 4 r _ layer a h
              (λ header_rest r a h. header_inside input 8 r _ layer a refl h))))

  igmp_parse-le : igmp_parse input ctx ≡ ok layer → layer.header_len ≤ length input
  unfolding igmp_parse
  igmp_parse-le h =
      behind_u8 input 0 (Bytes.new input) _ layer (new-At input sized) h (λ kind r a h.
        behind_u8 input 1 r _ layer a h (λ max_resp r a h.
          behind_u16 input 2 r _ layer a h (λ checksum r a h.
            behind_options input 4 4 r _ layer a h
              (λ group r a h. header_inside input 8 r _ layer a refl h))))

  vxlan_parse-le : vxlan_parse input ctx ≡ ok layer → layer.header_len ≤ length input
  unfolding vxlan_parse
  vxlan_parse-le h =
      behind_u8 input 0 (Bytes.new input) _ layer (new-At input sized) h (λ flags r a h.
        guard_passed (not (bit flags 3)) (ParseError.malformed "VXLAN I flag not set") _ layer h
          (λ on h. behind_options input 1 3 r _ layer a h (λ reserved1 r a h.
            behind_options input 4 3 r _ layer a h (λ vni r a h.
              behind_u8 input 7 r _ layer a h
                (λ reserved2 r a h. header_inside input 8 r _ layer a refl h)))))

  ntp_parse-le : ntp_parse input ctx ≡ ok layer → layer.header_len ≤ length input
  unfolding ntp_parse
  ntp_parse-le h =
      behind_u8 input 0 (Bytes.new input) _ layer (new-At input sized) h (λ first r a h.
        guard_passed (first % 8 == 0) (ParseError.malformed "reserved NTP mode 0") _ layer h
          (λ known h. behind_u8 input 1 r _ layer a h (λ stratum r a h.
            behind_u8 input 2 r _ layer a h (λ poll r a h.
              behind_u8 input 3 r _ layer a h (λ precision r a h.
                behind_u32 input 4 r _ layer a h (λ root_delay r a h.
                  behind_u32 input 8 r _ layer a h (λ root_dispersion r a h.
                    behind_options input 12 4 r _ layer a h (λ ref_id r a h.
                      behind_u64 input 16 r _ layer a h (λ ref_ts r a h.
                        behind_u64 input 24 r _ layer a h (λ orig_ts r a h.
                          behind_u64 input 32 r _ layer a h (λ recv_ts r a h.
                            behind_u64 input 40 r _ layer a h (λ xmit_ts r a h.
                              header_inside input 48 r _ layer a refl h))))))))))))

  ipv4_parse-le : ipv4_parse input ctx ≡ ok layer → layer.header_len ≤ length input
  unfolding ipv4_parse
  ipv4_parse-le h =
      behind_u8 input 0 (Bytes.new input) _ layer (new-At input sized) h (λ ver_ihl r a h.
        guard_passed (not (ver_ihl / 16 == 4)) (ParseError.malformed "version nibble is not 4") _
          layer h
          (λ v4 h.
            guard_passed (ltb (ver_ihl % 16) 5) (ParseError.malformed "IHL below 5") _ layer h
              (λ long h. behind_u8 input 1 r _ layer a h (λ dscp_ecn r a h.
                behind_u16 input 2 r _ layer a h (λ total_len r a h.
                  behind_u16 input 4 r _ layer a h (λ id r a h.
                    behind_u16 input 6 r _ layer a h (λ flags_frag r a h.
                      behind_u8 input 8 r _ layer a h (λ ttl r a h.
                        behind_u8 input 9 r _ layer a h (λ protocol r a h.
                          behind_u16 input 10 r _ layer a h (λ checksum r a h.
                            behind_options input 12 4 r _ layer a h (λ src r a h.
                              behind_options input 16 4 r _ layer a h (λ dst r a h.
                                behind_options input 20 (ver_ihl % 16 * 4 - 20) r _ layer a h
                                  (λ options r a h.
                                    header_inside input (20 + (ver_ihl % 16 * 4 - 20)) r _ layer a
                                      (filled (ver_ihl % 16) long) h)))))))))))))

  ipv6_parse-le : ipv6_parse input ctx ≡ ok layer → layer.header_len ≤ length input
  unfolding ipv6_parse
  ipv6_parse-le h =
      behind_u32 input 0 (Bytes.new input) _ layer (new-At input sized) h (λ first r a h.
        guard_passed (not (first / 2 ^ 28 == 6)) (ParseError.malformed "version nibble is not 6") _
          layer h
          (λ v6 h. behind_u16 input 4 r _ layer a h (λ payload_len r a h.
            behind_u8 input 6 r _ layer a h (λ next_header r a h.
              behind_u8 input 7 r _ layer a h (λ hop_limit r a h.
                behind_options input 8 16 r _ layer a h (λ src r a h.
                  behind_options input 24 16 r _ layer a h (λ dst r a h.
                    behind_chain input
                      (record {
                        next_header = next_header;
                        header_len = 40;
                        fragment_offset = 0;
                        reader = r;
                      })
                      _ layer a h
                      (λ c b h. header_inside input c.header_len c.reader _ layer b refl h))))))))

  udp_parse-le : udp_parse input ctx ≡ ok layer → layer.header_len ≤ length input
  udp_parse-le h =
      let (len, inside) = udp_parse-header_len input ctx layer sized h in omega (arith, len, inside)

-- The plugins that are modelled.
abbrev pub modelled : List Plugin
modelled =
    ethernet ∷ vlan ∷ arp ∷ ipv4 ∷ ipv6 ∷ icmpv4 ∷ icmpv6 ∷ igmp ∷ vxlan ∷ ntp ∷ gre ∷ ppp ∷ mpls
    ∷ esp ∷ tcp ∷ udp ∷ []

abbrev Within : Plugin → Type 0
Within p =
    (input : List ℕ) (ctx : ParseCtx) (layer : ParsedLayer)
    → length input < 2 ^ 64
    → p.parse input ctx ≡ ok layer
    → layer.header_len ≤ length input

abbrev AllWithin : List Plugin → Type 0
AllWithin [] = Unit
AllWithin (p ∷ ps) = Within p × AllWithin ps

AllWithin-get :
    (ps : List Plugin) (i : ℕ) (p : Plugin) → AllWithin ps → get_elem? ps i ≡ some p → Within p
AllWithin-get [] i p w e = absurd (cc)
AllWithin-get (q ∷ qs) zero p w e = let same : q ≡ p = cc in subst Within same w.0
AllWithin-get (q ∷ qs) (suc i) p w e = AllWithin-get qs i p w.1 e

modelled-AllWithin : AllWithin modelled
unfolding ethernet vlan arp ipv4 ipv6 icmpv4 icmpv6 igmp vxlan ntp gre ppp mpls esp tcp udp
modelled-AllWithin = (
  λ x c l s h. ethernet_parse-le x c l s h,
  (
    λ x c l s h. vlan_parse-le x c l s h,
    (
      λ x c l s h. arp_parse-le x c l s h,
      (
        λ x c l s h. ipv4_parse-le x c l s h,
        (
          λ x c l s h. ipv6_parse-le x c l s h,
          (
            λ x c l s h. icmpv4_parse-le x c l s h,
            (
              λ x c l s h. icmpv6_parse-le x c l s h,
              (
                λ x c l s h. igmp_parse-le x c l s h,
                (
                  λ x c l s h. vxlan_parse-le x c l s h,
                  (
                    λ x c l s h. ntp_parse-le x c l s h,
                    (
                      λ x c l s h. gre_parse-le x c l s h,
                      (
                        λ x c l s h. ppp_parse-le x c l s h,
                        (
                          λ x c l s h. mpls_parse-le x c l s h,
                          (
                            λ x c l s h. esp_parse-le x c l s h,
                            (
                              λ x c l s h. (tcp_parse-header_len x c l s h).1,
                              (λ x c l s h. udp_parse-le x c l s h, tt),
                            ),
                          ),
                        ),
                      ),
                    ),
                  ),
                ),
              ),
            ),
          ),
        ),
      ),
    ),
  ),
)

-- Each of the plugins for Ethernet, VLAN, ARP, IPv4, IPv6, ICMPv4, ICMPv6, IGMP, VXLAN, NTP, GRE, PPP, MPLS, ESP, TCP and UDP
-- that accepts an input of less than 2^64 bytes reports a header that lies within it, extension headers
-- and options included.
pub header_len-modelled :
    (i : ℕ) (p : Plugin) (input : List ℕ) (ctx : ParseCtx) (layer : ParsedLayer)
    → get_elem? modelled i ≡ some p
    → length input < 2 ^ 64
    → p.parse input ctx ≡ ok layer
    → layer.header_len ≤ length input
header_len-modelled i p input ctx layer at sized h =
    AllWithin-get modelled i p modelled-AllWithin at input ctx layer sized h
