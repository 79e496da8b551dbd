-- ===== src/Examples/ChainRuns.antt =====
-- The theorems on chains at a concrete chain.
use icn_nodus.Common.{
  split, is_prefix, contains, split_spaces, fields, strip_prefix, trim_prefix, itoa_rounds, itoa,
  All, String, ◌≡◌, refl, Bool, true, false, none, some, List, [], ◌∷◌,
}
use icn_nodus.Api.{
  Route, NetworkChaining, RoutingInfo, PodNetworkInfo, network_chaining, lookup, Pod,
}
use icn_nodus.Effect.{update_status, World, done, M, attempt, effects}
use icn_nodus.Effect.Emits.{world_of}
use icn_nodus.Effect.Requests.{request, repeat_rounds, wait_for}
use icn_nodus.Kube.{set_annotation_on_pod, get_control_plane_service_ip_range}
use icn_nodus.Iface.{
  default_gateway_of, get_default_gateway, default_interface_of, get_default_gateway_interface,
  preferred, get_interface_ip4_addr, get_host_network,
}
use icn_nodus.Ovn.Exec.{nbctl_reply, run_ovn_nbctl, ip_reply, run_ip}
use icn_nodus.Ovn.PodAddress.{
  get_network_subnet, without_char, second_field, address_of_port, search_ports,
  get_ip_address_for_pod,
}
use icn_nodus.Chain.{
  sfc_annotation_tag, sfc_created, deployments_of, networks_of, head_label, last_label,
  inner_labels, first_chars, from_char, chain_labels, is_net_label, the_only,
}
use icn_nodus.Chain.Waiting.{
  running_pod, check_pod_status, check_pod_status_from_pod_label, all_ready,
  check_sfc_pod_selector_status, deployment_running, deployments_running,
}
use icn_nodus.Chain.Networks.{
  check_net_from_label, check_label, check_net_for_net_pool, any_net_label, virtual_net,
  extend_chain, updated_chain, check_for_only_nf_label, validate_network_chaining,
  network_with_label, configure_network_from_label, subnets_of, calculate_dst_for_tail, names_of,
  derived_networks, middle_labels, check_sfc_pod_label_status,
}
use icn_nodus.Chain.Attach.{
  has_network, is_pod_network, build_nfn_annotations, add_pod_network_annotations,
}
use icn_nodus.Chain.Selectors.{
  side_network, entry_ip, Collected, container_id_of, collect_pod, mark_created, configure_pod,
  configure_pods, pods_of_namespace, configure_namespaces, configure_pod_selector_deployment,
}
use icn_nodus.Chain.Neighbours.{
  Line, neighbour_ip, left_ip, left_routes, right_routes, dynamic_routes, default_route,
  calculate_deployment_routes,
}
use icn_nodus.Chain.Calculation.{
  configure_side, set_subnets, named_networks, with_edge, edge_label, chain_routes,
  calculate_routes,
}
use icn_nodus.Chain.Containers.{
  ip_route, must_ip, add_route, node_routes, enter_namespace, container_add_route,
}
use icn_nodus.Controller.{contains_item, remove_item, write}
use icn_nodus.Controller.ChainController.{
  nfn_network_chain_finalizer, save_status, pods_ready, check_chain, notify, create_chain,
  delete_chain, without_chain_finalizer, save_chain, reconcile_chain_finalizers,
  reconcile_chain_found,
}
use icn_nodus.Examples.{fresh}
use icn_nodus.Controller.ChainController.Announced.{Announced}
use icn_nodus.Controller.ChainController.Notified.{delete_chain-unreported}
use icn_nodus.Notify.{
  send, send_to, set_routes, routes_of, send_routes, send_route_notif, send_delete_route_notif,
  send_pods, send_pod_network_notif, send_delete_pod_network_notif,
}
use icn_nodus.Controller.Writing.{logged}
use icn_nodus.Chain.Waiting.Running.{Runs, check_sfc_pod_label_status-Runs}
use icn_nodus.Chain.Selectors.Partition.{Splits, configure_pods-Splits}
use icn_nodus.Chain.Containers.Commands.{Configured, container_add_route-Configured}
use icn_nodus.Chain.Neighbours.Dynamic.{
  gateways, gateway_list, destinations, far_networks, SubnetsRead, dynamic_routes-SubnetsRead,
}
use icn_nodus.Chain.Networks.Weaving.{ReadsBack, with_chain, check_for_only_nf_label-ReadsBack}
use icn_nodus.Examples.Chains.{nf_pod, chained, side, sfc}

-- All that a run of a chain computes with.
runs : Unit {0}
unfolding lookup add_pod_network_annotations build_nfn_annotations set_annotation_on_pod split
    is_prefix contains fields split_spaces trim_prefix strip_prefix itoa itoa_rounds effects request
    wait_for repeat_rounds run_ovn_nbctl nbctl_reply get_network_subnet get_ip_address_for_pod
    search_ports address_of_port second_field without_char run_ip ip_reply
    get_control_plane_service_ip_range default_gateway_of get_default_gateway default_interface_of
    get_default_gateway_interface preferred get_interface_ip4_addr get_host_network deployments_of
    networks_of head_label last_label inner_labels first_chars from_char chain_labels is_net_label
    the_only running_pod check_pod_status check_pod_status_from_pod_label all_ready
    check_sfc_pod_selector_status deployment_running deployments_running check_net_from_label
    check_label check_net_for_net_pool any_net_label virtual_net extend_chain updated_chain
    check_for_only_nf_label validate_network_chaining network_with_label
    configure_network_from_label subnets_of calculate_dst_for_tail names_of derived_networks
    middle_labels check_sfc_pod_label_status has_network is_pod_network side_network entry_ip
    container_id_of collect_pod mark_created configure_pod configure_pods pods_of_namespace
    configure_namespaces configure_pod_selector_deployment neighbour_ip left_ip left_routes
    right_routes dynamic_routes calculate_deployment_routes configure_side set_subnets
    named_networks with_edge edge_label chain_routes calculate_routes ip_route must_ip add_route
    node_routes enter_namespace container_add_route write contains_item remove_item save_status
    pods_ready check_chain notify create_chain delete_chain without_chain_finalizer save_chain
    reconcile_chain_finalizers reconcile_chain_found send send_to set_routes routes_of send_routes
    send_route_notif send_delete_route_notif send_pods send_pod_network_notif
    send_delete_pod_network_notif
runs = tt

ran : {A : Type 0} → M A → World
ran m = world_of (m chained fresh)

abbrev calculated : List PodNetworkInfo × List RoutingInfo
calculated = (
  [],
  record {
    name = "nf1";
    namespace = "default";
    id = "c1";
    node = "node1";
    left_network_route = record { dst = "172.30.10.0/24"; gw = "172.30.10.2" } ∷ [];
    right_network_route = [];
    dynamic_network_routes = default_route "172.30.10.2" ∷ [];
  }
      ∷ [],
)

abbrev two_functions : NetworkChaining
two_functions = record sfc { network_chain = "app=nf1,app=nf2" }

abbrev two_functions_chain : String
two_functions_chain = "net=virtual-net0,app=nf1,net=virtual-net1,app=nf2,net=virtual-net2"

two_functions_run :
    check_for_only_nf_label two_functions chained fresh
    ≡ done (some two_functions_chain) (ran (check_for_only_nf_label two_functions))
unfolding runs ran
two_functions_run = refl

check_for_only_nf_label-ReadsBack_example :
    ReadsBack two_functions (with_chain two_functions two_functions_chain)
check_for_only_nf_label-ReadsBack_example =
    check_for_only_nf_label-ReadsBack two_functions chained fresh
      (ran (check_for_only_nf_label two_functions)) two_functions_chain two_functions_run

abbrev middle_function : M (List Route)
middle_function = dynamic_routes 1 "10.1.1.1" "10.2.2.2" 0 ("net0" ∷ "net1" ∷ "net2" ∷ [])

abbrev middle_routes : List Route
middle_routes = record { dst = "7f1e (nf1)"; gw = "10.2.2.2" } ∷ []

middle_run : middle_function chained fresh ≡ done middle_routes (ran middle_function)
unfolding runs ran
middle_run = refl

dynamic_routes-SubnetsRead_example :
    SubnetsRead chained fresh
      (far_networks 1 0 ("net0" ∷ "net1" ∷ "net2" ∷ []))
      (destinations middle_routes)
      (ran middle_function)
    × (gateway_list middle_routes
        ≡ gateways 1 "10.1.1.1" "10.2.2.2" 0 ("net0" ∷ "net1" ∷ "net2" ∷ []))
dynamic_routes-SubnetsRead_example =
    dynamic_routes-SubnetsRead 1 "10.1.1.1" "10.2.2.2" 0 ("net0" ∷ "net1" ∷ "net2" ∷ []) chained
      fresh (ran middle_function) middle_routes middle_run

abbrev line : Line
line = record { network_list = "net1" ∷ []; deployment_list = "app=nf0" ∷ "app=nf1" ∷ [] }

abbrev last_function : M RoutingInfo
last_function = calculate_deployment_routes "default" "app=nf1" 1 2 (side ∷ []) (side ∷ []) line

abbrev last_info : RoutingInfo
last_info = record {
  name = "nf1";
  namespace = "default";
  id = "c1";
  node = "node1";
  left_network_route = record { dst = "172.30.10.0/24"; gw = "10.0.0.5" } ∷ [];
  right_network_route = [];
  dynamic_network_routes = default_route "172.30.10.2" ∷ [];
}

abbrev default_only : List Route
default_only = default_route "10.0.0.9" ∷ []

container_run :
    container_add_route 42 default_only chained fresh
    ≡ done tt (ran (container_add_route 42 default_only))
unfolding runs ran
container_run = refl

container_add_route-Configured_example :
    Configured 42 default_only chained fresh (ran (container_add_route 42 default_only))
container_add_route-Configured_example =
    container_add_route-Configured 42 default_only chained fresh
      (ran (container_add_route 42 default_only)) container_run

abbrev two_pods : List Pod
two_pods = nf_pod ∷ record nf_pod { annotations = (sfc_annotation_tag, sfc_created) ∷ [] } ∷ []

abbrev side_of_pods : M Collected
side_of_pods = configure_pods "pn1" default_only false two_pods

abbrev pod_info : PodNetworkInfo
pod_info = record {
  name = "nf1";
  namespace = "default";
  id = "c1";
  node = "node1";
  network_info = "";
  route = default_only;
}

pods_run : side_of_pods chained fresh ≡ done ([], pod_info ∷ []) (ran side_of_pods)
unfolding runs ran
pods_run = refl

configure_pods-Splits_example : Splits false default_only two_pods [] (pod_info ∷ [])
configure_pods-Splits_example =
    configure_pods-Splits "pn1" default_only false two_pods chained fresh (ran side_of_pods) []
      (pod_info ∷ []) pods_run

abbrev labels_checked : M Bool
labels_checked = check_sfc_pod_label_status sfc

labels_run : labels_checked chained fresh ≡ done true (ran labels_checked)
unfolding runs ran
labels_run = refl

check_sfc_pod_label_status-Runs_example :
    (mode : String) × (labels : List String) × (u : World) × (u' : World)
    × (validate_network_chaining sfc chained fresh ≡ done mode u)
    × (middle_labels mode (chain_labels sfc) chained u ≡ done labels u')
    × All (Runs chained) (deployments_of labels)
check_sfc_pod_label_status-Runs_example =
    check_sfc_pod_label_status-Runs sfc chained fresh (ran labels_checked) labels_run

abbrev sfc_created_now : NetworkChaining
sfc_created_now = record sfc { state = "Created" }

-- A world in which an agent is connected.
abbrev connected : World
connected = record fresh { agents = "node1" ∷ [] }

abbrev created_world : World
created_world = world_of (create_chain sfc chained connected)

deletion_run :
    calculate_routes sfc true false chained fresh
    ≡ done calculated (ran (calculate_routes sfc true false))
unfolding runs ran
deletion_run = refl

abbrev at_deletion : World
at_deletion = ran (calculate_routes sfc true false)

abbrev routes_told : World
routes_told = world_of (send_delete_route_notif calculated.1 "delete" chained at_deletion)

routes_told_run :
    attempt (send_delete_route_notif calculated.1 "delete") chained at_deletion
    ≡ done none routes_told
unfolding runs ran
routes_told_run = refl

pods_told_run :
    attempt (send_delete_pod_network_notif calculated.0 "delete") chained routes_told
    ≡ done none routes_told
unfolding runs ran
pods_told_run = refl

delete_chain-unreported_example :
    let sent = record sfc { state = "Deleted" } in
    delete_chain sfc chained fresh
    ≡ done
        (sent, chained.written routes_told.trace (update_status (network_chaining sent)))
        (logged (update_status (network_chaining sent)) routes_told)
delete_chain-unreported_example =
    delete_chain-unreported sfc chained fresh at_deletion routes_told routes_told calculated.0
      calculated.1 none none refl refl deletion_run routes_told_run pods_told_run

abbrev sfc_deleted : NetworkChaining
sfc_deleted = record sfc { deleting = true; finalizers = nfn_network_chain_finalizer ∷ [] }

abbrev sfc_unlocked : NetworkChaining
sfc_unlocked = record sfc { deleting = true; state = "Deleted" }
