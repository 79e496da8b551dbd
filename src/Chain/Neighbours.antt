-- ===== src/Chain/Neighbours.antt =====
-- internal/pkg/utils/chain.go: calculateDeploymentRoutes, the routes of one function of a chain.
pub mod Dynamic
pub mod Ends
use Prim.Native.String
use icn_nodus.Common.{
  ltb, nat_eq, if◌then◌else◌, is_empty, ℕ, zero, suc, ◌+◌, String, Bool, ◌||◌, List, [], ◌∷◌, ◌++◌,
}
use icn_nodus.Api.{Route, RoutingNetwork, RoutingInfo}
use icn_nodus.Api.Cluster.{kube_client, pods_by_label}
use icn_nodus.Effect.{message, M, ◌>>=◌, ◌>>◌, pure, raise, index}
use icn_nodus.Effect.Requests.{request}
use icn_nodus.Ovn.PodAddress.{get_network_subnet, get_ip_address_for_pod}
use icn_nodus.Chain.Waiting.{check_pod_status_from_pod_label}
use icn_nodus.Chain.Selectors.{container_id_of}

-- What the routes of the deployments depend on: the networks between them, and their labels.
pub record Line : Type 0 where
  pub network_list : List String
  pub deployment_list : List String

-- The address of deployment j in network i, once its pod is ready.
unfoldable pub neighbour_ip : Line → ℕ → ℕ → M String
neighbour_ip line j i = do
  label ← index line.deployment_list j
  podname ← check_pod_status_from_pod_label label
  nw ← index line.network_list i
  get_ip_address_for_pod nw podname

unfoldable pub left_ip : Line → ℕ → RoutingNetwork → M String
left_ip line zero l = pure l.gateway_ip
left_ip line (suc k) l = neighbour_ip line k k

-- The loop over the left networks: the address found last, and the routes.
unfoldable pub left_routes : Line → ℕ → String → List RoutingNetwork → M (String × List Route)
left_routes line place ip [] = pure (ip, [])
left_routes line place ip (l ∷ ls) = do
  gw ← left_ip line place l
  (last, routes) ← left_routes line place gw ls
  pure (last, record { dst = l.subnet; gw = gw } ∷ routes)

-- The loop over the right networks. At the last position it ends with the first one's gateway and no
-- route.
unfoldable pub right_routes : Line → ℕ → ℕ → String → List RoutingNetwork → M (String × List Route)
right_routes line place num ip [] = pure (ip, [])
right_routes line place num ip (r ∷ rs) =
    let next = neighbour_ip line (place + 1) place >>= λ gw.
    right_routes line place num gw rs >>= λ found.
    pure (found.0, record { dst = r.subnet; gw = gw } ∷ found.1) in
    if nat_eq (place + 1) num then pure (r.gateway_ip, []) else next

-- i == place || i == place-1
abbrev pub is_adjacent : ℕ → ℕ → Bool
is_adjacent place i = nat_eq i place || nat_eq (i + 1) place

-- The loop over the networks, from number i: a route to each that is not next to the deployment.
unfoldable pub dynamic_routes : ℕ → String → String → ℕ → List String → M (List Route)
dynamic_routes place left right i [] = pure []
dynamic_routes place left right i (n ∷ ns) =
    let rest = dynamic_routes place left right (i + 1) ns in
    if is_adjacent place i
    then rest
    else (get_network_subnet n >>= λ dst. rest >>= λ routes.
        pure (record { dst = dst; gw = if ltb place i then right else left } ∷ routes))

abbrev pub default_route : String → Route
default_route gw = record { dst = "0.0.0.0"; gw = gw }

-- calculateDeploymentRoutes
unfoldable pub calculate_deployment_routes :
    String → String → ℕ → ℕ → List RoutingNetwork → List RoutingNetwork → Line → M RoutingInfo
calculate_deployment_routes namespace label place num ln rn line = do
  request kube_client
  pods ← request (pods_by_label namespace label)
  if is_empty pods then raise (message "Pod not found") else pure tt
  pod ← index pods 0
  id ← container_id_of pod
  (left, lefts) ← left_routes line place "" ln
  (right, rights) ← right_routes line place num "" rn
  routes ← dynamic_routes place left right 0 line.network_list
  pure (record {
    name = pod.name;
    namespace = namespace;
    id = id;
    node = pod.node_name;
    left_network_route = lefts;
    right_network_route = rights;
    dynamic_network_routes = routes ++ default_route right ∷ [];
  })
