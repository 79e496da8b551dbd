-- ===== src/Api.antt =====
-- pkg/apis/k8s/v1alpha1: the custom resources, and what the program reads of core Kubernetes
-- objects. A Go map with string keys is an association list, whose first entry for a key counts.
pub mod Cluster
pub mod Messages
use icn_nodus.Common.{
  if◌then◌else◌, is_blank, ℕ, String, Bool, ◌&&◌, Option, none, some, List, [], ◌∷◌, ◌==◌,
}

pub record IpSubnet : Type 0 where
  pub name : String
  pub subnet : String
  pub gateway : String
  pub exclude_ips : String

-- network_types.go: `NetworkPool`
pub record NetworkPool : Type 0 where
  pub pool_nr : ℕ
  pub network : IpSubnet
  pub available : Bool

-- network_types.go: `Route`
pub record Route : Type 0 where
  pub dst : String
  pub gw : String

-- network_types.go: `Network`, of whose fields the controllers read the name, the deletion stamp,
-- the finalizers, the CNI type, the subnets and the state.
pub record Network : Type 0 where
  pub name : String
  pub deleting : Bool
  pub finalizers : List String
  pub cni_type : String
  pub ipv4_subnets : List IpSubnet
  pub ipv6_subnets : List IpSubnet
  pub state : String

-- providernetwork_types.go: `VlanSpec` and `DirectSpec`, each with its node selector
pub record VlanSpec : Type 0 where
  pub vlan_id : String
  pub node_selector : String
  pub node_label_list : List String
  pub provider_interface_name : String
  pub logical_interface_name : String

pub record DirectSpec : Type 0 where
  pub node_selector : String
  pub node_label_list : List String
  pub provider_interface_name : String

-- providernetwork_types.go: `ProviderNetwork`, of which the operator reads these parts.
pub record ProviderNetwork : Type 0 where
  pub name : String
  pub deleting : Bool
  pub finalizers : List String
  pub cni_type : String
  pub ipv4_subnets : List IpSubnet
  pub ipv6_subnets : List IpSubnet
  pub provider_net_type : String
  pub vlan : VlanSpec
  pub direct : DirectSpec
  pub state : String

-- networkchaining_types.go: `RoutingNetwork`, with the two selectors' labels
pub record RoutingNetwork : Type 0 where
  pub network_name : String
  pub gateway_ip : String
  pub subnet : String
  pub pod_selector : List (String × String)
  pub namespace_selector : List (String × String)

-- networkchaining_types.go: `NetworkChaining`, of whose fields these are read.
pub record NetworkChaining : Type 0 where
  pub name : String
  pub namespace : String
  pub generation : ℕ
  pub deleting : Bool
  pub finalizers : List String
  pub chain_type : String
  pub left_network : List RoutingNetwork
  pub right_network : List RoutingNetwork
  pub network_chain : String
  pub state : String

-- internal/pkg/utils/chain.go: the routes of a pod in a chain, and the network that a pod is given.
pub record RoutingInfo : Type 0 where
  pub name : String
  pub namespace : String
  pub id : String
  pub node : String
  pub left_network_route : List Route
  pub right_network_route : List Route
  pub dynamic_network_routes : List Route

pub record PodNetworkInfo : Type 0 where
  pub name : String
  pub namespace : String
  pub id : String
  pub node : String
  pub network_info : String
  pub route : List Route

-- An object that a controller writes.
pub data Object : Type 0 where
  network_chaining : NetworkChaining → Object
  network : Network → Object
  provider_network : ProviderNetwork → Object

abbrev pub created : String
created = "Created"

abbrev pub pending : String
pending = "Pending"

abbrev pub creating : String
creating = "Creating"

abbrev pub deleted : String
deleted = "Deleted"

abbrev pub virtual_mode : String
virtual_mode = "VirtualMode"

abbrev pub create_internal_error : String
create_internal_error = "CreateInternalError"

abbrev pub delete_internal_error : String
delete_internal_error = "DeleteInternalError"

abbrev pub Labels : Type 0
Labels = List (String × String)

unfoldable pub lookup {ℓ} : {V : Type ℓ} → String → List (String × V) → Option V
lookup k [] = none
lookup k ((j, v) ∷ m) = if j == k then some v else lookup k m

-- m[k] = v
unfoldable pub insert {ℓ} : {V : Type ℓ} → String → V → List (String × V) → List (String × V)
insert k v [] = (k, v) ∷ []
insert k v ((j, w) ∷ m) = if j == k then (k, v) ∷ m else (j, w) ∷ insert k v m

-- delete(m, k)
unfoldable pub delete {ℓ} : {V : Type ℓ} → String → List (String × V) → List (String × V)
delete k [] = []
delete k ((j, w) ∷ m) = let rest = delete k m in if j == k then rest else (j, w) ∷ rest

pub record ContainerStatus : Type 0 where
  pub container_id : String
  pub ready : Bool

-- Core Kubernetes: of a pod the program reads these fields.
pub record Pod : Type 0 where
  pub name : String
  pub namespace : String
  pub node_name : String
  pub host_network : Bool
  pub pod_ip : String
  pub annotations : Labels
  pub deleting : Bool
  -- `none` is a nil map
  pub labels : Option Labels
  pub phase : String
  pub container_statuses : List ContainerStatus

-- A map of the annotation, as far as mapstructure reads it: a key may be missing.
pub record NetFields : Type 0 where
  pub name : Option String
  pub interface : Option String
  pub net_type : Option String
  pub default_gateway : Option String
  pub ip_address : Option String
  pub mac_address : Option String
  pub gw_ip_address : Option String

-- network_types.go: `IsEmpty` of a route
unfoldable pub is_empty_route : Route → Bool
is_empty_route r = is_blank r.dst && is_blank r.gw
