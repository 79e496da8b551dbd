-- ===== src/Examples/Chains.antt =====
-- A cluster with one function of a chain, and a chain over it.
use icn_nodus.Common.{if◌then◌else◌, any, String, true, false, none, some, List, [], ◌∷◌, ◌==◌}
use icn_nodus.Api.{VlanSpec, DirectSpec, ProviderNetwork, RoutingNetwork, NetworkChaining, Pod}
use icn_nodus.Api.Cluster.{
  KernelRoute, LinkAddress, Request, kube_client, crd_client, pods_by_label, networks_by_label,
  namespaces_by_label, list_chainings, pod_by_name, network_by_name, provider_network_by_name,
  namespace_by_name, chaining_by_name, nodes_by_label, list_provider_networks, cluster_networking,
  patch_annotation, update_annotation, route_list, interface_by_index, address_list, get_ns, set_ns,
  docker_client, inspect_container, Reply,
}
use icn_nodus.Effect.{external, Result, ok, err, Env}
use icn_nodus.Examples.{printing}

abbrev pub nf_pod : Pod
nf_pod = record {
  name = "nf1";
  namespace = "default";
  node_name = "node1";
  host_network = false;
  pod_ip = "10.0.0.5";
  annotations = [];
  deleting = false;
  labels = none;
  phase = "Running";
  container_statuses = record { container_id = "docker://c1"; ready = true } ∷ [];
}

abbrev pub no_vlan : VlanSpec
no_vlan = record {
  vlan_id = "";
  node_selector = "";
  node_label_list = [];
  provider_interface_name = "";
  logical_interface_name = "";
}

abbrev pub no_direct : DirectSpec
no_direct = record { node_selector = "all"; node_label_list = []; provider_interface_name = "eth1" }

abbrev pub edge : ProviderNetwork
edge = record {
  name = "pn1";
  deleting = false;
  finalizers = [];
  cni_type = "ovn4nfv";
  ipv4_subnets = [];
  ipv6_subnets = [];
  provider_net_type = "DIRECT";
  vlan = no_vlan;
  direct = no_direct;
  state = "";
}

abbrev default_kernel_route : KernelRoute
default_kernel_route = record { dst = none; gw = some "10.0.0.1"; link_index = 2 }

abbrev host_address : LinkAddress
host_address = record {
  is_ipv4 = true;
  is_global_unicast = true;
  is_link_local = false;
  prefix = "192.168.1.7/24";
}

abbrev no_object : {A : Type 0} → Result A
no_object = err (external "not found")

-- There are no networks by label, so that a chain is in the provider mode.
abbrev pub replies : (r : Request) → Result (Reply r)
replies kube_client = ok tt
replies crd_client = ok tt
replies (pods_by_label ns selector) = ok (nf_pod ∷ [])
replies (networks_by_label selector) = ok []
replies (namespaces_by_label selector) = ok []
replies list_chainings = ok []
replies (pod_by_name ns name) = ok nf_pod
replies (network_by_name name) = no_object
replies (provider_network_by_name name) = ok edge
replies (namespace_by_name name) = no_object
replies (chaining_by_name name) = no_object
replies (nodes_by_label selector) = ok ("node1" ∷ [])
replies list_provider_networks = ok (edge ∷ [])
replies cluster_networking = ok (record {
  service_subnet = "10.96.0.0/12";
  pod_subnet = "10.151.142.0/18";
  dns_domain = "cluster.local";
})
replies (patch_annotation ns name key value) = ok tt
replies (update_annotation ns name key value) = ok tt
replies route_list = ok (default_kernel_route ∷ [])
replies (interface_by_index i) = ok tt
replies (address_list i) = ok (host_address ∷ [])
replies (get_ns path) = ok tt
replies (set_ns path) = ok tt
replies docker_client = ok tt
replies (inspect_container id) = ok 42

abbrev answer : List String → String
answer args =
    if any (λ a. a == "dynamic_addresses") args then "0a:58:0a:00:00:05 10.0.0.5" else "7f1e (nf1)"

abbrev pub chained : Env
chained = record (printing "") {
  exec = λ trace k path args. record { stdout = answer args; stderr = ""; error = none };
  cluster = λ trace r. replies r;
  parse_cidr = λ s. some (record {
    network = "192.168.1.0/24";
    base = "192.168.1.0";
    bytes = [];
    ones = 24;
    address = "192.168.1.7";
  });
}

abbrev pub side : RoutingNetwork
side = record {
  network_name = "pn1";
  gateway_ip = "172.30.10.2";
  subnet = "172.30.10.0/24";
  pod_selector = [];
  namespace_selector = [];
}

abbrev pub sfc : NetworkChaining
sfc = record {
  name = "sfc";
  namespace = "default";
  generation = 1;
  deleting = false;
  finalizers = [];
  chain_type = "Routing";
  left_network = side ∷ [];
  right_network = side ∷ [];
  network_chain = "app=nf1";
  state = "";
}
