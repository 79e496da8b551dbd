-- ===== src/Chain/Calculation.antt =====
-- internal/pkg/utils/chain.go: CalculateRoutes, the routes of a whole chain.
use icn_nodus.Common.{
  if◌then◌else◌, is_blank, length, ℕ, ◌+◌, String, Bool, List, [], ◌∷◌, ◌++◌, ◌==◌,
}
use icn_nodus.Api.{RoutingNetwork, NetworkChaining, RoutingInfo, PodNetworkInfo, virtual_mode}
use icn_nodus.Effect.{M, ◌>>=◌, ◌>>◌, pure}
use icn_nodus.Chain.{deployments_of, networks_of, head_label, last_label, chain_labels}
use icn_nodus.Chain.Networks.{
  check_net_for_net_pool, validate_network_chaining, configure_network_from_label,
  calculate_dst_for_tail, derived_networks, middle_labels,
}
use icn_nodus.Chain.Selectors.{Collected, both, configure_pod_selector_deployment}
use icn_nodus.Chain.Neighbours.{Line, calculate_deployment_routes}

-- The loop over the left or the right networks of the chain, whose deployment at that end has the label.
unfoldable pub configure_side :
    List RoutingNetwork → M String → Bool → String → String → List String → M Collected
configure_side [] entry cs mode networklabel dst = pure ([], [])
configure_side (n ∷ ns) entry cs mode networklabel dst = do
  label ← entry
  found ← configure_pod_selector_deployment n label cs mode networklabel dst
  rest ← configure_side ns entry cs mode networklabel dst
  pure (both found rest)

-- The subnets that are set, and the networks that are named.
unfoldable pub set_subnets : List RoutingNetwork → List String
set_subnets [] = []
set_subnets (n ∷ ns) =
    let rest = set_subnets ns in if is_blank n.subnet then rest else n.subnet ∷ rest

unfoldable pub named_networks : List RoutingNetwork → List RoutingNetwork
named_networks [] = []
named_networks (n ∷ ns) =
    let rest = named_networks ns in if is_blank n.network_name then rest else n ∷ rest

-- `if mode == VirtualMode`: the network that the label selects, behind the others
unfoldable pub with_edge : String → String → List RoutingNetwork → M (List RoutingNetwork)
with_edge mode label nets =
    if mode == virtual_mode
    then (configure_network_from_label label >>= λ n. pure (nets ++ n ∷ []))
    else pure nets

-- The labels of the two ends in virtual mode, else blank.
unfoldable pub edge_label : String → M String → M String
edge_label mode label = if mode == virtual_mode then label else pure ""

-- The loop over the deployments, from number i.
unfoldable pub chain_routes :
    String
    → ℕ
    → List RoutingNetwork
    → List RoutingNetwork
    → Line
    → ℕ
    → List String
    → M (List RoutingInfo)
chain_routes namespace num ln rn line i [] = pure []
chain_routes namespace num ln rn line i (d ∷ ds) = do
  r ← calculate_deployment_routes namespace d i num ln rn line
  rest ← chain_routes namespace num ln rn line (i + 1) ds
  pure (r ∷ rest)

-- CalculateRoutes. The routes of the pods on the left are taken twice, those of the pods on the right
-- not at all.
unfoldable pub calculate_routes :
    NetworkChaining → Bool → Bool → M (List PodNetworkInfo × List RoutingInfo)
calculate_routes cr cs only_pod_selector = do
  check_net_for_net_pool cr
  mode ← validate_network_chaining cr
  head ← edge_label mode (head_label (chain_labels cr))
  tail ← edge_label mode (last_label (chain_labels cr))
  chains ← middle_labels mode (chain_labels cr)
  let deployments = deployments_of chains
  networks ← derived_networks (networks_of chains)
  (left_info, left_pods) ←
      configure_side cr.left_network (head_label deployments) cs mode head ("0.0.0.0" ∷ [])
  ln ← with_edge mode head cr.left_network
  rn ← with_edge mode tail cr.right_network
  taildst ← calculate_dst_for_tail networks
  (right_info, right_pods) ←
      configure_side cr.right_network (last_label deployments) cs mode tail
        (set_subnets ln ++ set_subnets rn ++ taildst)
  routes ←
      if only_pod_selector
      then pure []
      else chain_routes cr.namespace (length deployments) (named_networks ln) (named_networks rn)
          (record { network_list = networks; deployment_list = deployments }) 0 deployments
  pure (left_pods ++ right_pods, left_info ++ left_info ++ routes)
