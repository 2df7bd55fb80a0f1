-- ===== src/Flows/Unknown/Listing.antt =====
-- The listing of the registry (groups of crates/pktflow-flows/src/unknown.rs), with the derived orders
-- of `UnknownKey` and `RouteId`.
use pktflow.Prelude.{
  ℕ, List, [], ◌∷◌, Bool, true, false, ◌&&◌, ◌||◌, Option, none, some, ltb, leb, ◌==◌, ◌≟◌,
  string_eq, if◌then◌else◌, String,
}
use pktflow.Prelude.Map.{Map}
use pktflow.Prelude.Text.{codes}
use pktflow.Core.Route.{RouteId, link_type, ether_type, ip_protocol, udp_port, tcp_port, custom}
use pktflow.Flows.Key.{slice_le}
use pktflow.Flows.Unknown.{UnknownKey, UnknownGroup, UnknownRegistry}

-- The place of a variant, its space and its number.
abbrev variant : RouteId → ℕ
variant (link_type n) = 0
variant (ether_type n) = 1
variant (ip_protocol n) = 2
variant (udp_port n) = 3
variant (tcp_port n) = 4
variant (custom space n) = 5

abbrev route_space : RouteId → String
route_space (custom space n) = space
route_space route = ""

abbrev route_number : RouteId → ℕ
route_number (link_type n) = n
route_number (ether_type n) = n
route_number (ip_protocol n) = n
route_number (udp_port n) = n
route_number (tcp_port n) = n
route_number (custom space n) = n

-- `str::cmp`
unfoldable pub string_le : String → String → Bool
unfolding slice_le
string_le s t = slice_le (codes s) (codes t)

unfoldable pub route_le : RouteId → RouteId → Bool
unfolding string_le
route_le r q =
    if variant r == variant q
    then (if route_space r ≟ route_space q
        then leb (route_number r) (route_number q)
        else string_le (route_space r) (route_space q))
    else ltb (variant r) (variant q)

unfoldable pub optional_route_le : Option RouteId → Option RouteId → Bool
unfolding route_le
optional_route_le none q = true
optional_route_le (some r) none = false
optional_route_le (some r) (some q) = route_le r q

unfoldable pub unknown_key_le : UnknownKey → UnknownKey → Bool
unfolding string_le optional_route_le
unknown_key_le k l =
    if k.predecessor ≟ l.predecessor
    then optional_route_le k.route l.route
    else string_le k.predecessor l.predecessor

-- The larger count comes first, then the lower key.
unfoldable pub listed_before : UnknownGroup → UnknownGroup → Bool
unfolding unknown_key_le
listed_before a b = ltb b.count a.count || ((a.count == b.count) && unknown_key_le a.key b.key)

unfoldable pub insert_group : UnknownGroup → List UnknownGroup → List UnknownGroup
unfolding listed_before
insert_group g [] = g ∷ []
insert_group g (h ∷ hs) = if listed_before g h then g ∷ h ∷ hs else h ∷ insert_group g hs

unfoldable pub sort_groups : Map UnknownKey UnknownGroup → List UnknownGroup
unfolding insert_group
sort_groups [] = []
sort_groups ((k, g) ∷ rest) = insert_group g (sort_groups rest)

-- `UnknownRegistry::groups`
unfoldable pub listed_groups : UnknownRegistry → List UnknownGroup
unfolding sort_groups
listed_groups r = sort_groups r.groups
