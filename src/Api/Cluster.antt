-- ===== src/Api/Cluster.antt =====
-- What the program asks of the cluster, the kernel and the container runtime through their client
-- libraries, and what each answers when there is no error.
use icn_nodus.Common.{ℕ, String, Bool, Option, List}
use icn_nodus.Api.{Network, ProviderNetwork, NetworkChaining, Labels, Pod}

-- corev1.Namespace; `none` is a nil map of labels.
pub record Namespace : Type 0 where
  pub name : String
  pub labels : Option Labels

-- kubeadmtypes.Networking
pub record Networking : Type 0 where
  pub service_subnet : String
  pub pod_subnet : String
  pub dns_domain : String

-- netlink.Route: its destination as text, unless it is nil, its gateway as IPv4 text, unless it has
-- none, and the index of its link, where 0 stands for an index that is not positive.
pub record KernelRoute : Type 0 where
  pub dst : Option String
  pub gw : Option String
  pub link_index : ℕ

-- netlink.Addr: whether it is an IPv4 address, what kind it is, and the text of its prefix.
pub record LinkAddress : Type 0 where
  pub is_ipv4 : Bool
  pub is_global_unicast : Bool
  pub is_link_local : Bool
  pub prefix : String

pub data Request : Type 0 where
  -- GetKubeConfig and GetKubev1alpha1Config: the two clients
  kube_client : Request
  crd_client : Request
  -- the objects of a namespace that a label selector selects
  pods_by_label : String → String → Request
  networks_by_label : String → Request
  namespaces_by_label : String → Request
  list_chainings : Request
  -- one object by its namespace and name; not to find it is an error
  pod_by_name : String → String → Request
  network_by_name : String → Request
  provider_network_by_name : String → Request
  namespace_by_name : String → Request
  chaining_by_name : String → Request
  -- the names of the nodes that a label selector selects
  nodes_by_label : String → Request
  list_provider_networks : Request
  -- the networking part of the kubeadm configuration, decoded
  cluster_networking : Request
  -- patches one annotation of a pod, or updates the status of a pod with one annotation replaced
  patch_annotation : String → String → String → String → Request
  update_annotation : String → String → String → String → Request
  -- netlink.RouteList, net.InterfaceByIndex and netlink.AddrList
  route_list : Request
  interface_by_index : ℕ → Request
  address_list : ℕ → Request
  -- ns.GetNS of a path, and the change into the namespace that it opens
  get_ns : String → Request
  set_ns : String → Request
  -- the client of the container runtime, and the process id of a container
  docker_client : Request
  inspect_container : String → Request

abbrev pub Reply : Request → Type 0
Reply kube_client = Unit
Reply crd_client = Unit
Reply (pods_by_label ns selector) = List Pod
Reply (networks_by_label selector) = List Network
Reply (namespaces_by_label selector) = List Namespace
Reply list_chainings = List NetworkChaining
Reply (pod_by_name ns name) = Pod
Reply (network_by_name name) = Network
Reply (provider_network_by_name name) = ProviderNetwork
Reply (namespace_by_name name) = Namespace
Reply (chaining_by_name name) = NetworkChaining
Reply (nodes_by_label selector) = List String
Reply list_provider_networks = List ProviderNetwork
Reply cluster_networking = Networking
Reply (patch_annotation ns name key value) = Unit
Reply (update_annotation ns name key value) = Unit
Reply route_list = List KernelRoute
Reply (interface_by_index i) = Unit
Reply (address_list i) = List LinkAddress
Reply (get_ns path) = Unit
Reply (set_ns path) = Unit
Reply docker_client = Unit
Reply (inspect_container id) = ℕ
