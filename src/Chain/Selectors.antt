-- ===== src/Chain/Selectors.antt =====
-- internal/pkg/utils/chain.go: the pods that a side of a chain selects, and their routes into the chain.
pub mod Partition
use Prim.Native.String
use icn_nodus.Common.{
  if◌then◌else◌, is_blank, trim_prefix, is_empty, String, Bool, true, false, not, ◌&&◌, none, some,
  List, [], ◌∷◌, ◌++◌, ◌==◌,
}
use icn_nodus.Api.{Route, RoutingNetwork, RoutingInfo, PodNetworkInfo, virtual_mode, lookup, Pod}
use icn_nodus.Api.Cluster.{
  Namespace, kube_client, crd_client, pods_by_label, namespaces_by_label, provider_network_by_name,
}
use icn_nodus.Effect.{Error, message, M, ◌>>=◌, ◌>>◌, pure, raise, attempt, ask, index}
use icn_nodus.Effect.Requests.{request, wait_for}
use icn_nodus.Kube.{set_annotation_on_pod}
use icn_nodus.Ovn.PodAddress.{get_ip_address_for_pod}
use icn_nodus.Chain.{sfc_annotation_tag, sfc_created, single_replica, the_only}
use icn_nodus.Chain.Waiting.{check_pod_status, check_sfc_pod_selector_status}
use icn_nodus.Chain.Attach.{is_pod_network, add_pod_network_annotations}
use icn_nodus.Chain.Networks.{network_with_label}

abbrev no_provider : Error
no_provider = message "Provider network can't be empty in Non Virtual mode"

-- The network of the side: a provider network by its name, or in virtual mode the one with the label.
unfoldable pub side_network : RoutingNetwork → String → String → M String
side_network ln mode networklabel =
    if mode == virtual_mode
    then (network_with_label networklabel >>= λ net. pure net.name)
    else if is_blank ln.network_name
    then raise no_provider
    else (request (provider_network_by_name ln.network_name) >>= λ pn. pure pn.name)

-- The address of the pod at the chain's end, once the pod is ready.
unfoldable pub entry_ip : String → String → M String
entry_ip networkname label = do
  pods ← request (pods_by_label "default" label)
  pod ← the_only single_replica pods
  _ ← wait_for (check_pod_status pod.name)
  get_ip_address_for_pod networkname pod.name

abbrev pub routes_via : String → List String → List Route
routes_via gw [] = []
routes_via gw (d ∷ dst) = record { dst = d; gw = gw } ∷ routes_via gw dst

-- What configurePodSelectorDeployment collects.
abbrev pub Collected : Type 0
Collected = List RoutingInfo × List PodNetworkInfo

abbrev pub both : Collected → Collected → Collected
both (rt, pni) (rt', pni') = (rt ++ rt', pni ++ pni')

-- The pod has the annotation of a chain that was created, and the chain is not deleted.
abbrev pub is_configured : Bool → Pod → Bool
is_configured to_delete pod =
    not to_delete
    && elim (lookup sfc_annotation_tag pod.annotations) [ none ↦ false | some v ↦ v == sfc_created ]

-- strings.TrimPrefix(pod.Status.ContainerStatuses[0].ContainerID, "docker://")
unfoldable pub container_id_of : Pod → M String
container_id_of pod = do
  status ← index pod.container_statuses 0
  pure (trim_prefix status.container_id "docker://")

abbrev pub routed_pod : Pod → String → List Route → RoutingInfo
routed_pod pod id routes = record {
  name = pod.name;
  namespace = pod.namespace;
  id = id;
  node = pod.node_name;
  left_network_route = [];
  right_network_route = [];
  dynamic_network_routes = routes;
}

abbrev pub attached_pod : Pod → String → String → List Route → PodNetworkInfo
attached_pod pod id netinfo routes = record {
  name = pod.name;
  namespace = pod.namespace;
  id = id;
  node = pod.node_name;
  network_info = netinfo;
  route = routes;
}

abbrev pub one_list : Bool → RoutingInfo → PodNetworkInfo → Collected
one_list true r p = (r ∷ [], [])
one_list false r p = ([], p ∷ [])

-- A pod that has the network gets routes; the network is attached to any other, with the routes.
unfoldable pub collect_pod : Pod → String → List Route → Bool → M Collected
collect_pod pod networkname routes to_delete = do
  has ← is_pod_network pod networkname
  netinfo ← if has then pure "" else add_pod_network_annotations pod networkname to_delete
  id ← container_id_of pod
  pure (one_list has (routed_pod pod id routes) (attached_pod pod id netinfo routes))

-- An error of the annotation is only logged.
unfoldable pub mark_created : Bool → Pod → M (Unit {0})
mark_created to_delete pod =
    if to_delete
    then pure tt
    else (attempt (set_annotation_on_pod pod sfc_annotation_tag sfc_created) >>= λ _. pure tt)

-- One pod.
unfoldable pub configure_pod : String → List Route → Bool → Pod → M Collected
configure_pod networkname routes to_delete pod =
    if is_configured to_delete pod then pure ([], []) else (do
      found ← collect_pod pod networkname routes to_delete
      mark_created to_delete pod
      pure found)

-- The loop over the pods of a namespace.
unfoldable pub configure_pods : String → List Route → Bool → List Pod → M Collected
configure_pods networkname routes to_delete [] = pure ([], [])
configure_pods networkname routes to_delete (pod ∷ pods) = do
  found ← configure_pod networkname routes to_delete pod
  rest ← configure_pods networkname routes to_delete pods
  pure (both found rest)

-- One namespace: where it has labels and pods, the pods once all of them are ready.
unfoldable pub pods_of_namespace : RoutingNetwork → Namespace → M (List Pod)
pods_of_namespace ln ns = elim ns.labels [
  | none ↦ pure []
  | some labels ↦ (do
    selector ← ask (λ env _. env.selector_text ln.pod_selector)
    pods ← request (pods_by_label ns.name selector)
    if is_empty pods then pure [] else wait_for (check_sfc_pod_selector_status ns.name selector))
]

-- The loop over the namespaces.
unfoldable pub configure_namespaces :
    RoutingNetwork → String → List Route → Bool → List Namespace → M Collected
configure_namespaces ln networkname routes to_delete [] = pure ([], [])
configure_namespaces ln networkname routes to_delete (ns ∷ nss) = do
  pods ← pods_of_namespace ln ns
  found ← configure_pods networkname routes to_delete pods
  rest ← configure_namespaces ln networkname routes to_delete nss
  pure (both found rest)

-- configurePodSelectorDeployment
unfoldable pub configure_pod_selector_deployment :
    RoutingNetwork → String → Bool → String → String → List String → M Collected
configure_pod_selector_deployment ln entry_label to_delete mode networklabel dst = do
  request kube_client
  request crd_client
  networkname ← side_network ln mode networklabel
  gw ← entry_ip networkname entry_label
  selector ← ask (λ env _. env.selector_text ln.namespace_selector)
  nss ← request (namespaces_by_label selector)
  configure_namespaces ln networkname (routes_via gw dst) to_delete nss
