-- ===== src/Chain/Neighbours/Ends.antt =====
-- internal/pkg/utils/chain.go: the routes of a function over the whole of calculateDeploymentRoutes.
use icn_nodus.Common.{ℕ, String, ◌≡◌, List, [], ◌∷◌, ◌++◌}
use icn_nodus.Api.{Route, RoutingNetwork, RoutingInfo}
use icn_nodus.Effect.{Env, World, done}
use icn_nodus.Effect.Returns.{Returns}
use icn_nodus.Effect.Requests.{after_request}
use icn_nodus.Api.Cluster.{kube_client, pods_by_label}
use icn_nodus.Chain.Neighbours.{Line, left_routes, default_route}
use icn_nodus.Chain.Neighbours.Dynamic.{
  gateways, gateway_list, destinations, far_networks, SubnetsRead,
}

abbrev pub subnet_list : List RoutingNetwork → List String
subnet_list [] = []
subnet_list (n ∷ ns) = n.subnet ∷ subnet_list ns

-- The gateway of the first network, which the code takes for the neighbour on the right of the last
-- function; blank where there is no network.
abbrev pub first_gateway : List RoutingNetwork → String
first_gateway [] = ""
first_gateway (n ∷ ns) = n.gateway_ip

-- The world behind the reading of the pods of a function.
abbrev pub pods_read : String → String → World → World
pods_read namespace label w =
    after_request (pods_by_label namespace label) (after_request kube_client w)

-- The routes of the last function of a chain, each step from the world that the one before left: those to
-- the left networks, with the neighbour found last; the networks' subnets; and the default route.
pub record EndsChain (num : ℕ) (ln rn : List RoutingNetwork) (line : Line) (env : Env)
    (start v : World) (r : RoutingInfo) : Type 0 where
  pub left : String
  pub left_read : World
  pub lefts : left_routes line num "" ln env start ≡ done (left, r.left_network_route) left_read
  pub to_left : destinations r.left_network_route ≡ subnet_list ln
  pub no_right : r.right_network_route ≡ []
  pub routes : List Route
  pub subnets :
      SubnetsRead env left_read (far_networks num 0 line.network_list) (destinations routes) v
  pub by : gateway_list routes ≡ gateways num left (first_gateway rn) 0 line.network_list
  pub default : r.dynamic_network_routes ≡ routes ++ default_route (first_gateway rn) ∷ []
