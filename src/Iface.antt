-- ===== src/Iface.antt =====
-- internal/pkg/network/iface.go: the routes and addresses of a network namespace.
use icn_nodus.Common.{
  nat_eq, if◌then◌else◌, sprint, ℕ, String, Bool, true, false, not, Option, none, some, List, [],
  ◌∷◌, ◌==◌,
}
use icn_nodus.Api.Cluster.{KernelRoute, LinkAddress, route_list, interface_by_index, address_list}
use icn_nodus.Effect.{message, external, Cidr, M, ◌>>=◌, ◌>>◌, pure, raise, ask}
use icn_nodus.Effect.Requests.{request}

abbrev text_is : Option String → String → Bool
text_is none s = false
text_is (some t) s = t == s

-- The gateway of a route that was chosen.
abbrev pub gateway_or : String → Option String → M String
gateway_or text none = raise (message text)
gateway_or text (some gw) = pure gw

-- The loop of GetGatewayInterface.
unfoldable pub gateway_of : String → List KernelRoute → M String
gateway_of dst [] = raise (message (sprint ("Unable to find gw for route dst -" ∷ dst ∷ [])))
gateway_of dst (route ∷ routes) =
    let rest = gateway_of dst routes in
    if text_is route.dst dst
    then gateway_or "Found dst route but could not determine gateway" route.gw
    else rest

unfoldable pub get_gateway_interface : String → M String
get_gateway_interface dst = do routes ← request route_list; gateway_of dst routes

-- The loop of IsRouteExist: a route with the destination and no gateway ends it.
unfoldable pub route_exists : String → String → List KernelRoute → Bool
route_exists dst gw [] = false
route_exists dst gw (route ∷ routes) =
    let rest = route_exists dst gw routes in
    if text_is route.dst dst
    then elim route.gw [ none ↦ false | some g ↦ if g == gw then true else rest ]
    else rest

unfoldable pub is_route_exist : String → String → M Bool
is_route_exist dst gw = do routes ← request route_list; pure (route_exists dst gw routes)

-- `route.Dst == nil || route.Dst.String() == "0.0.0.0/0"`
abbrev pub is_default : KernelRoute → Bool
is_default route = elim route.dst [ none ↦ true | some d ↦ d == "0.0.0.0/0" ]

unfoldable pub default_gateway_of : List KernelRoute → M String
default_gateway_of [] = raise (message "Unable to find default route")
default_gateway_of (route ∷ routes) =
    let rest = default_gateway_of routes in
    if is_default route
    then gateway_or "Found default route but could not determine gateway" route.gw
    else rest

unfoldable pub get_default_gateway : M String
get_default_gateway = do routes ← request route_list; default_gateway_of routes

-- The index of the interface of the default route.
unfoldable pub default_interface_of : List KernelRoute → M ℕ
default_interface_of [] = raise (message "Unable to find default route")
default_interface_of (route ∷ routes) =
    let rest = default_interface_of routes in
    let i = route.link_index in
    if is_default route
    then (if nat_eq i 0
        then raise (message "Found default route but could not determine interface")
        else (request (interface_by_index i) >> pure i))
    else rest

unfoldable pub get_default_gateway_interface : M ℕ
get_default_gateway_interface = do routes ← request route_list; default_interface_of routes

-- The loop of GetInterfaceIP4Addr, with the link-local address found so far.
unfoldable pub preferred : Option LinkAddress → List LinkAddress → Option LinkAddress
preferred ll [] = ll
preferred ll (addr ∷ addrs) =
    let local = preferred (some addr) addrs in
    let rest = preferred ll addrs in
    if not addr.is_ipv4
    then rest
    else if addr.is_global_unicast
    then some addr
    else if addr.is_link_local
    then local
    else rest

abbrev address_or_error : Option LinkAddress → M LinkAddress
address_or_error none = raise (message "No IPv4 address found for given interface")
address_or_error (some addr) = pure addr

unfoldable pub get_interface_ip4_addr : ℕ → M LinkAddress
get_interface_ip4_addr i = do
  addrs ← request (address_list i)
  address_or_error (preferred none addrs)

abbrev network_of : Option Cidr → M String
network_of none = raise (external "invalid CIDR address")
network_of (some c) = pure c.network

unfoldable pub get_host_network : M String
get_host_network = do
  i ← get_default_gateway_interface
  addr ← get_interface_ip4_addr i
  net ← ask (λ env _. env.parse_cidr addr.prefix)
  network_of net
